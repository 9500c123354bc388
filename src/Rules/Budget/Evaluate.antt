-- ===== src/Rules/Budget/Evaluate.antt =====
-- `parse_window` and `evaluate` of apiverity/rules/budget.py: the calls of a run against a budget.
pub mod Operations
pub mod Limits
pub mod Within
use Prim.Native.Char.{Char, code}
use api_verity_lab.Common.{
  ℕ, ◌+◌, ◌-◌, ◌*◌, String, ◌<>◌, Bool, true, false, not, ◌&&◌, ◌||◌, Option, none, some, List, [],
  ◌∷◌, ◌++◌, ◌==◌, nat_ord, text_ord, contains, sorted_set, keys, get, map, ltb, leb, bool_ord, any,
  is_some, if◌then◌else◌,
}
use api_verity_lab.Common.Text.{is_empty, print}
use api_verity_lab.Model.Operation.{or_else}
use api_verity_lab.Model.Repr.{repr_text}
use api_verity_lab.Model.Finding.{Severity, error, warn, info, Finding, plain_finding}
use api_verity_lab.Rules.Budget.{busiest_window}
use api_verity_lab.Rules.Budget.Observed.{Observation, Call, instant_of, observe}

-- \s, over ASCII
abbrev is_blank : ℕ → Bool
is_blank c = c == 32 || (leb 9 c && leb c 13) || (leb 28 c && leb c 31)

-- _UNITS: the seconds of a unit
abbrev unit_seconds : ℕ → Option ℕ
unit_seconds c =
    if c == 115
    then some 1
    else if c == 109
    then some 60
    else if c == 104
    then some 3600
    else if c == 100
    then some 86400
    else none

-- \s*$
unfoldable pub all_blank : String → Bool
all_blank String.[] = true
all_blank (String.◌∷◌ c s) = is_blank (code c) && all_blank s

-- timedelta(seconds=seconds) in microseconds, unless it has more than 999999999 days
abbrev timedelta : ℕ → Option ℕ
timedelta seconds = if ltb seconds 86400000000000 then some (seconds * 1000000) else none

-- \s*([smhd])\s*$ behind the number `n`
unfoldable pub parse_unit : ℕ → String → Option ℕ
unfolding all_blank
parse_unit n String.[] = none
parse_unit n (String.◌∷◌ c s) =
    let later = parse_unit n s in
    if is_blank (code c) then later else elim (unit_seconds (code c)) [
      | none ↦ none
      | some unit ↦ if all_blank s then timedelta (n * unit) else none
    ]

-- (\d+) and what follows, behind a first digit
unfoldable pub parse_number : ℕ → String → Option ℕ
unfolding parse_unit
parse_number n String.[] = none
parse_number n (String.◌∷◌ c s) =
    let more = parse_number (n * 10 + (code c - 48)) s in
    if leb 48 (code c) && leb (code c) 57 then more else parse_unit n (String.◌∷◌ c s)

-- The length in microseconds; nothing where parse_window raises BudgetError or timedelta an
-- OverflowError.
unfoldable pub parse_window : String → Option ℕ
unfolding parse_number
parse_window String.[] = none
parse_window (String.◌∷◌ c s) =
    let later = parse_window s in
    if is_blank (code c)
    then later
    else if leb 48 (code c) && leb (code c) 57
    then parse_number (code c - 48) s
    else none

pub record Limit : Type 0 where
  pub operation_key : String
  pub max_calls : ℕ
  pub window : String

-- the fields of a budget that evaluate reads
pub record Budget : Type 0 where
  pub deny_by_default : Bool
  pub limits : List Limit

-- self.max_calls == 0
abbrev pub forbidden : Limit → Bool
forbidden limit = limit.max_calls == 0

unfoldable pub unknown_finding : String → Finding
unknown_finding key =
    plain_finding "BUDGET-OPERATION-UNKNOWN" error
      ("the budget limits "
        <> (repr_text key
            <> ", which the contract does not declare. This limit can never match anything, so the file looks like protection and is not"))
      (some key)

-- the first loop
unfoldable pub unknown_findings : List String → List Limit → List Finding
unfolding unknown_finding
unknown_findings declared [] = []
unknown_findings declared (limit ∷ rest) =
    let others = unknown_findings declared rest in
    if not (contains limit.operation_key declared)
    then unknown_finding limit.operation_key ∷ others
    else others

-- if declared_operations is not None
unfoldable pub declared_findings : Option (List String) → List Limit → List Finding
unfolding unknown_findings
declared_findings none limits = []
declared_findings (some declared) limits = unknown_findings declared limits

unfoldable pub unused_finding : String → Finding
unused_finding key =
    plain_finding "BUDGET-UNUSED" info
      ("nothing in this traffic called "
        <> (repr_text key
            <> "; its limit was not exercised, so this run says nothing about whether it holds"))
      (some key)

unfoldable pub forbidden_finding : String → ℕ → Finding
forbidden_finding key total =
    plain_finding "BUDGET-FORBIDDEN" error
      (repr_text key
        <> (" is budgeted at zero calls and was called " <> (print total <> " time(s)")))
      (some key)

unfoldable pub undated_findings : String → Observation → List Finding
undated_findings key r =
    if ltb 0 r.undated
    then plain_finding "BUDGET-UNDATED-CALLS" warn
        (print r.undated
          <> (" of "
              <> (print r.total
                  <> (" call(s) to "
                      <> (repr_text key
                          <> " carry no timestamp and could not be placed in any window; the peak above is a lower bound")))))
        (some key)
      ∷ []
    else []

unfoldable pub unbudgeted_finding : Bool → String → ℕ → Finding
unbudgeted_finding deny key total =
    plain_finding "BUDGET-UNBUDGETED" (if deny then error else info)
      (repr_text key
        <> (" was called "
            <> (print total
                <> (" time(s) and no limit covers it"
                    <> (if deny
                        then "; this budget denies by default"
                        else ". Add a limit if that traffic is meant to be bounded")))))
      (some key)

-- the last loop, over the sorted keys
unfoldable pub unbudgeted_findings :
    Bool → List String → List (String × Observation) → List String → List Finding
unfolding unbudgeted_finding
unbudgeted_findings deny budgeted seen [] = []
unbudgeted_findings deny budgeted seen (key ∷ rest) =
    let others = unbudgeted_findings deny budgeted seen rest in
    elim (get key seen) [
      | none ↦ others
      | some r ↦
          if contains key budgeted then others else unbudgeted_finding deny key r.total ∷ others
    ]

-- datetime.isoformat, datetime.fromisoformat
module _ (isoformat : ℕ → String) (parse_instant : String → Option ℕ) where
  -- at.isoformat() if at else 'unknown'
  unfoldable pub shown_instant : Option ℕ → String
  shown_instant none = "unknown"
  shown_instant (some at) = isoformat at

  unfoldable pub exceeded_findings : Limit → ℕ × Option ℕ → List Finding
  unfolding shown_instant
  exceeded_findings limit (peak, at) =
      if ltb limit.max_calls peak
      then plain_finding "BUDGET-EXCEEDED" error
          (repr_text limit.operation_key
            <> (" allows "
                <> (print limit.max_calls
                    <> (" call(s) per "
                        <> (limit.window
                            <> (" and reached "
                                <> (print peak
                                    <> (" in the window beginning " <> shown_instant at))))))))
          (some limit.operation_key)
        ∷ []
      else []

  -- the body of the second loop, by what was observed of the operation
  unfoldable pub limit_findings : Limit → Option Observation → Option (List Finding)
  unfolding unused_finding forbidden_finding exceeded_findings undated_findings
  limit_findings limit none = some (unused_finding limit.operation_key ∷ [])
  limit_findings limit (some r) =
      if r.total == 0
      then some (unused_finding limit.operation_key ∷ [])
      else if forbidden limit
      then some (forbidden_finding limit.operation_key r.total ∷ [])
      else elim (parse_window limit.window) [
        | none ↦ none
        | some window ↦ some (
            exceeded_findings limit (busiest_window r.instants window)
            ++ undated_findings limit.operation_key r)
      ]

  unfoldable pub limits_findings : List (String × Observation) → List Limit → Option (List Finding)
  unfolding limit_findings
  limits_findings seen [] = some []
  limits_findings seen (limit ∷ rest) = elim (limit_findings limit (get limit.operation_key seen)) [
    | none ↦ none
    | some found ↦ elim (limits_findings seen rest) [
      | none ↦ none
      | some others ↦ some (found ++ others)
    ]
  ]

  -- the findings, where the instants of each limit can be sorted
  unfoldable pub all_findings : Budget → List Call → Option (List String) → Option (List Finding)
  unfolding declared_findings limits_findings unbudgeted_findings observe
  all_findings budget calls declared =
      let seen = observe parse_instant calls in
      elim (limits_findings seen budget.limits) [
        | none ↦ none
        | some found ↦ some (
            declared_findings declared budget.limits
            ++ (found
                ++ unbudgeted_findings budget.deny_by_default
                    (map (λ l. l.operation_key) budget.limits) seen (sorted_set (keys seen))))
      ]

  -- `zoned` tells whether fromisoformat reads a zone out of a text.
  module _ (zoned : String → Bool) where
    -- whether the dated calls of an operation have zones, call by call
    unfoldable pub zones_of : String → List Call → List Bool
    unfolding instant_of
    zones_of key [] = []
    zones_of key (call ∷ rest) =
        let later = zones_of key rest in
        if call.operation_key == key
          && not (is_empty key)
          && is_some (instant_of parse_instant call.at)
        then zoned (or_else call.at "") ∷ later
        else later

    -- sorted(instants) compares times that have a zone with times that have none.
    unfoldable pub is_mixed : List Call → Limit → Bool
    unfolding zones_of
    is_mixed calls limit =
        let zones = zones_of limit.operation_key calls in
        not (forbidden limit) && contains true zones && contains false zones

    -- Nothing where it raises: a `TypeError` of sorted, or a window that cannot be read.
    unfoldable pub evaluate : Budget → List Call → Option (List String) → Option (List Finding)
    unfolding is_mixed
    evaluate budget calls declared =
        if any (is_mixed calls) budget.limits then none else all_findings budget calls declared
