-- ===== src/Rules/Suppressions.antt =====
-- apiverity/rules/suppressions.py: which findings a project's suppressions silence.
pub mod Bounded
use api_verity_lab.Common.{
  ℕ, ◌+◌, String, ◌<>◌, Bool, true, false, not, ◌&&◌, ◌||◌, Option, none, some, List, [], ◌∷◌, ◌++◌,
  ltb, ◌==◌, text_ord, option_ord, if◌then◌else◌,
}
use api_verity_lab.Common.Text.{is_empty, strip, print}
use api_verity_lab.Model.Repr.{repr_text}
use api_verity_lab.Model.Operation.{or_else, shown}
use api_verity_lab.Model.Finding.{Severity, warn, info, Finding, plain_finding}

pub record Suppression : Type 0 where
  pub rule_id : String
  pub operation_key : Option String
  pub owner : String
  pub reason : String
  pub expires : Option String
  pub approved_by : String

pub record SuppressionResult : Type 0 where
  pub active : List Finding
  pub suppressed : List (Finding × Suppression)
  pub expired : List Suppression
  pub incomplete : List (Suppression × List String)
  pub unscoped : List Suppression

default_max_lifetime_days : ℕ
default_max_lifetime_days = 90

-- not s.strip(), over ASCII white space
abbrev pub is_blank : String → Bool
is_blank s = is_empty (strip s)

-- if found: out.append(sentence)
sentence_if : Bool → String → List String
sentence_if true s = s ∷ []
sentence_if false s = []

abbrev is_clean : List String → Bool
is_clean [] = true
is_clean (s ∷ rest) = false

-- s.rule_id == f.rule_id and (s.operation_key is None or s.operation_key == f.operation_key)
unfoldable pub matches : Suppression → Finding → Bool
matches s f =
    s.rule_id == f.rule_id
    && (elim s.operation_key [ none ↦ true | some operation ↦ f.operation_key == some operation ])

-- the first of `live` that matches
unfoldable pub match_of : List Suppression → Finding → Option Suppression
unfolding matches
match_of [] f = none
match_of (s ∷ rest) f = let later = match_of rest f in if matches s f then some s else later

unfoldable pub split : List Suppression → List Finding → List Finding × List (Finding × Suppression)
split live [] = ([], [])
split live (f ∷ rest) =
    let (active, suppressed) = split live rest in
    elim (match_of live f) [
      | some s ↦ (active, (f, s) ∷ suppressed)
      | none ↦ (f ∷ active, suppressed)
    ]

unfoldable pub everywhere : List Suppression → List Suppression
everywhere [] = []
everywhere (s ∷ rest) =
    let others = everywhere rest in
    elim s.operation_key [ none ↦ s ∷ others | some operation ↦ others ]

-- `day_of` is `date.fromisoformat`: the day's ordinal, or nothing where it raises `ValueError`.
module _ (day_of : String → Option ℕ) (today : ℕ) where
  unfoldable pub is_expired : Suppression → Bool
  is_expired s = elim s.expires [
    | none ↦ false
    | some text ↦ elim (day_of text) [ none ↦ true | some day ↦ ltb day today ]
  ]

  module _ (max_days : ℕ) (require_approver : Bool) where
    expiry_problems : Option String → List String
    unfolding sentence_if
    expiry_problems none =
        "it has no `expires` date, so it is permanent -- which is the thing this format exists to prevent"
        ∷ []
    expiry_problems (some text) = elim (day_of text) [
      | none ↦ ("its `expires` value " <> repr_text text <> " is not an ISO date (YYYY-MM-DD)") ∷ []
      | some day ↦ sentence_if (ltb (today + max_days) day) (
          "it expires on "
          <> text
          <> ", more than "
          <> print max_days
          <> " days out; an expiry far enough away is a permanent ignore with a date on it")
    ]

    unfoldable pub problems : Suppression → List String
    unfolding sentence_if expiry_problems
    problems s =
        sentence_if (is_blank s.rule_id)
          "it names no `rule_id`, so there is nothing for it to suppress"
        ++ (sentence_if (is_blank s.owner)
              "it has no `owner`; a suppression nobody owns is nobody's to revisit"
            ++ (sentence_if (is_blank s.reason)
                  "it has no `reason`; the next reader cannot tell a decision from an oversight"
                ++ (sentence_if (require_approver && is_blank s.approved_by)
                      "it has no `approved_by`, and this project sets `suppression_require_approver: true`"
                    ++ expiry_problems s.expires)))

    -- the first loop of `apply_suppressions`
    pub record Sorted : Type 0 where
      pub expired : List Suppression
      pub incomplete : List (Suppression × List String)
      pub live : List Suppression

    unfoldable pub sort_entries : List Suppression → Sorted
    sort_entries [] = record { expired = []; incomplete = []; live = [] }
    sort_entries (s ∷ rest) =
        let later = sort_entries rest in
        let found = problems s in
        if not (is_clean found)
        then record later { incomplete = (s, found) ∷ later.incomplete }
        else if is_expired s
        then record later { expired = s ∷ later.expired }
        else record later { live = s ∷ later.live }

    unfoldable pub apply_suppressions : List Finding → List Suppression → SuppressionResult
    apply_suppressions findings suppressions =
        let sorted = sort_entries suppressions in
        let (active, suppressed) = split sorted.live findings in
        record {
          active = active;
          suppressed = suppressed;
          expired = sorted.expired;
          incomplete = sorted.incomplete;
          unscoped = everywhere sorted.live;
        }

-- f" on '{key}'" if key else ""
abbrev on_operation : Option String → String
on_operation none = ""
on_operation (some operation) = if is_empty operation then "" else " on '" <> operation <> "'"

unfoldable pub expired_suppression_findings : List Suppression → List Finding
expired_suppression_findings [] = []
expired_suppression_findings (s ∷ rest) =
    plain_finding "SUPPRESSION-EXPIRED" warn
      ("suppression for '"
        <> s.rule_id
        <> "'"
        <> on_operation s.operation_key
        <> " owned by '"
        <> or_else (some s.owner) "unknown"
        <> "' expired on "
        <> shown s.expires
        <> "; re-justify it with an owner, reason and new expiry, or fix the issue")
      s.operation_key
    ∷ expired_suppression_findings rest

-- "; and ".join(sentences)
join_sentences : List String → String
join_sentences [] = ""
join_sentences (s ∷ []) = s
join_sentences (s ∷ t ∷ rest) = s <> "; and " <> join_sentences (t ∷ rest)

unfoldable pub incomplete_suppression_findings : List (Suppression × List String) → List Finding
unfolding join_sentences
incomplete_suppression_findings [] = []
incomplete_suppression_findings ((s, found) ∷ rest) =
    plain_finding "SUPPRESSION-INCOMPLETE" warn
      ("the suppression for '"
        <> or_else (some s.rule_id) "(no rule id)"
        <> "'"
        <> on_operation s.operation_key
        <> " did not suppress anything, because "
        <> join_sentences found)
      s.operation_key
    ∷ incomplete_suppression_findings rest

unfoldable pub unscoped_suppression_findings : List Suppression → List Finding
unscoped_suppression_findings [] = []
unscoped_suppression_findings (s ∷ rest) =
    plain_finding "SUPPRESSION-UNSCOPED" info
      ("'"
        <> s.rule_id
        <> "' is suppressed across every operation until "
        <> shown s.expires
        <> " by '"
        <> s.owner
        <> "'; naming an `operation_key` would keep the rule live everywhere else")
      none
    ∷ unscoped_suppression_findings rest
