-- ===== src/Runtime/Monitor.antt =====
-- apiverity/runtime/monitor.py: one run of a check folded into what the runs before it established.
-- A finding is the dict that a command reports; its `rule_id`, `operation_key` and `message` are
-- texts where they are there.
pub mod Spec
pub mod Steady
use api_verity_lab.Common.{
  ℕ, suc, ◌+◌, String, ◌<>◌, Bool, true, false, not, ◌&&◌, ◌||◌, Option, none, some, is_some, List,
  [], ◌∷◌, ◌++◌, ltb, ◌==◌, nat_ord, text_ord, option_ord, if◌then◌else◌, length, contains,
  sorted_set, keep, get, put, put_all, dict_of,
}
use api_verity_lab.Common.Text.{is_empty, print}
use api_verity_lab.Model.Value.{
  Number, Value, number, dict, Members, truthy, get_member, dict_or_empty,
}
use api_verity_lab.Model.Operation.{or_else}

pub record Finding : Type 0 where
  pub rule_id : Option String
  pub operation_key : Option String
  pub message : Option String

unfoldable pub unobservable_rules : List String
unobservable_rules = "DRIFT-UNREACHABLE" ∷ "GHOST-UNREACHABLE" ∷ []

measured_keys : List String
measured_keys = "operations_checked" ∷ "probed" ∷ []

unfoldable pub finding_key : Finding → String
finding_key f =
    let rule = or_else f.rule_id "" in
    let operation = or_else f.operation_key "" in
    if is_empty operation then rule else rule <> "\t" <> operation

-- the count under the first key that gives an `int`: an `int` has scale 0
first_count : List String → Members → Option Number
first_count [] scope = none
first_count (key ∷ rest) scope =
    let others = first_count rest scope in
    elim (get_member key scope) [ number n ↦ if n.scale == 0 then some n else others | _ ↦ others ]

scope_count : Option Members → Option Number
unfolding first_count measured_keys
scope_count none = none
scope_count (some scope) = first_count measured_keys scope

unfoldable pub measured_count : Members → Option Number
unfolding scope_count
measured_count artifact = elim (scope_count (some artifact)) [
  | some n ↦ some n
  | none ↦ scope_count (dict_or_empty (get_member "report" artifact))
]

-- its members, with repetitions
unfoldable pub unobserved_operations : List Finding → List String
unfolding unobservable_rules
unobserved_operations [] = []
unobserved_operations (f ∷ rest) =
    let others = unobserved_operations rest in
    let operation = or_else f.operation_key "" in
    if contains (or_else f.rule_id "") unobservable_rules && not (is_empty operation)
    then operation ∷ others
    else others

pub record MonitorState : Type 0 where
  pub findings : List (String × Finding)
  pub flaps : List (String × ℕ)
  pub runs : ℕ

pub record Transitions : Type 0 where
  pub appeared : List Finding
  pub resolved : List Finding
  pub persisted : List Finding
  pub carried : List Finding
  pub unobserved : List String
  pub message_changed : ℕ
  pub baseline : Bool
  pub inconclusive : Option String
  pub flaps : List (String × ℕ)

-- Transitions.alerting
unfoldable pub alerting : Transitions → Bool
alerting t =
    if is_empty (or_else t.inconclusive "")
    then ltb 0 (length t.appeared) || ltb 0 (length t.resolved)
    else true

-- Transitions.summary, its parts joined with ", "
unfoldable pub summary : Transitions → String
summary t =
    if is_empty (or_else t.inconclusive "")
    then (if t.baseline
        then "baseline recorded: "
          <> print (length t.persisted)
          <> " finding(s) known, none reported as new"
        else print (length t.appeared)
          <> " appeared, "
          <> print (length t.resolved)
          <> " resolved"
          <> (if t.message_changed == 0
              then ""
              else ", " <> print t.message_changed <> " changed message only")
          <> ", "
          <> print (length t.persisted)
          <> " unchanged"
          <> (if length t.unobserved == 0
              then ""
              else ", "
                <> print (length t.unobserved)
                <> " operation(s) not measured, "
                <> print (length t.carried)
                <> " finding(s) carried forward"))
    else "inconclusive: " <> or_else t.inconclusive ""

unfoldable pub count_of : String → List (String × ℕ) → ℕ
count_of key flaps = elim (get key flaps) [ none ↦ 0 | some n ↦ n ]

-- The loops of `apply_run` change the transitions, `state.flaps` and the local `carried`.
pub record Fold : Type 0 where
  pub out : Transitions
  pub crossings : List (String × ℕ)
  pub kept : List (String × Finding)

-- state.flaps[key] = state.flaps.get(key, 0) + 1; out.flaps[key] = state.flaps[key]
unfoldable pub cross : String → Fold → Fold
cross key w =
    let n = count_of key w.crossings + 1 in
    record w {
      out = record (w.out) { flaps = put key n w.out.flaps };
      crossings = put key n w.crossings;
    }

unfoldable pub persist : Finding → Fold → Fold
persist f w = record w { out = record (w.out) { persisted = w.out.persisted ++ f ∷ [] } }

unfoldable pub appear : Finding → Fold → Fold
appear f w = record w { out = record (w.out) { appeared = w.out.appeared ++ f ∷ [] } }

unfoldable pub resolve : Finding → Fold → Fold
resolve f w = record w { out = record (w.out) { resolved = w.out.resolved ++ f ∷ [] } }

unfoldable pub carry : String → Finding → Fold → Fold
carry key f w = record w {
  out = record (w.out) { carried = w.out.carried ++ f ∷ [] };
  kept = put key f w.kept;
}

unfoldable pub note_message : Finding → Finding → Fold → Fold
note_message was f w = record w {
  out = record (w.out) {
    message_changed = w.out.message_changed + (if was.message == f.message then 0 else 1);
  };
}

-- the body of the first loop
unfoldable pub see : Bool → Option Finding → String → Finding → Fold → Fold
see baseline none key f w = if baseline then persist f w else cross key (appear f w)
see baseline (some was) key f w = note_message was f (persist f w)

unfoldable pub see_all : Bool → List (String × Finding) → List (String × Finding) → Fold → Fold
see_all baseline previous [] w = w
see_all baseline previous ((key, f) ∷ rest) w =
    see_all baseline previous rest (see baseline (get key previous) key f w)

-- the body of the second loop
unfoldable pub miss : List (String × Finding) → List String → String → Finding → Fold → Fold
miss current unobserved key f w =
    if is_some (get key current)
    then w
    else if contains (or_else f.operation_key "") unobserved
    then carry key f w
    else cross key (resolve f w)

unfoldable pub miss_all :
    List (String × Finding) → List String → List (String × Finding) → Fold → Fold
miss_all current unobserved [] w = w
miss_all current unobserved ((key, f) ∷ rest) w =
    miss_all current unobserved rest (miss current unobserved key f w)

unfoldable pub values_of : List (String × Finding) → List Finding
values_of [] = []
values_of ((key, f) ∷ rest) = f ∷ values_of rest

-- {finding_key(f): f for f in observed}
keyed : List Finding → List (String × Finding)
keyed [] = []
keyed (f ∷ rest) = (finding_key f, f) ∷ keyed rest

unfoldable pub current_of : List Finding → List (String × Finding)
unfolding keyed
current_of observed = dict_of (keyed observed)

abbrev is_zero : Option Number → Bool
is_zero none = false
is_zero (some n) = n.mantissa == 0

abbrev pub blank : Bool → List String → Transitions
blank baseline unobserved = record {
  appeared = [];
  resolved = [];
  persisted = [];
  carried = [];
  unobserved = unobserved;
  message_changed = 0;
  baseline = baseline;
  inconclusive = none;
  flaps = [];
}

outage : Option Number → List String → Option String
outage measured unobserved =
    if is_zero measured && not (length unobserved == 0)
    then some (
        "nothing was measured; "
        <> print (length unobserved)
        <> " operation(s) could not be reached")
    else none

-- both loops
unfoldable pub fold_run : MonitorState → List Finding → Fold
fold_run state observed =
    let current = current_of observed in
    let unobserved = unobserved_operations observed in
    let start : Fold = record {
      out = blank (state.runs == 0) (sorted_set unobserved);
      crossings = state.flaps;
      kept = [];
    } in
    miss_all current unobserved state.findings
      (see_all (state.runs == 0) state.findings current start)

-- a run that began
unfoldable pub apply_observed :
    MonitorState → List Finding → Option Number → MonitorState × Transitions
unfolding outage
apply_observed state observed measured =
    let w = fold_run state observed in
    (
      record {
        findings = put_all (current_of observed) w.kept;
        flaps = w.crossings;
        runs = state.runs + 1;
      },
      record (w.out) { inconclusive = outage measured w.out.unobserved },
    )

-- the state after the run, and what it moved; an empty reason is none
unfoldable pub apply_run :
    MonitorState → List Finding → Option String → Option Number → MonitorState × Transitions
apply_run state observed reason measured =
    if is_empty (or_else reason "") then apply_observed state observed measured else (
      state,
      record (blank (state.runs == 0) []) {
        carried = values_of state.findings;
        inconclusive = reason;
      },
    )

-- `flapping` of `report`: the keys that crossed more than once
unfoldable pub flapping : Transitions → List (String × ℕ)
flapping t = keep (λ crossing. ltb 1 crossing.1) t.flaps
