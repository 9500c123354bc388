-- ===== src/Tests/Runs.antt =====
-- The theorems on apiverity/rules, apiverity/runtime/monitor.py and apiverity/core/artifact.py at
-- small inputs.
use api_verity_lab.Common.{
  ℕ, String, Bool, true, false, not, Option, none, some, List, [], ◌∷◌, ◌≡◌, refl, arith, ◌↔◌, inl,
  inr, All, any, none, keep, map, contains, if◌then◌else◌, ◌==◌, nat_ord, text_ord, sorted_set, ltb,
}
use api_verity_lab.Common.Text.{is_empty, strip}
use api_verity_lab.Model.Finding.{error, warn, Finding, plain_finding}
use api_verity_lab.Rules.Suppressions.{
  Suppression, matches, apply_suppressions, sort_entries, problems, is_expired, split, match_of,
}
use api_verity_lab.Rules.Suppressions.Bounded.{
  InForce, silences, apply_suppressions-InForce, apply_suppressions-keep,
}
use api_verity_lab.Rules.Semver.{VersionType, evaluate, suggest_bump, demanded, rules_of, satisfies}
use api_verity_lab.Rules.Semver.Silent.{Acceptable, evaluate-Acceptable}
use api_verity_lab.Rules.Semver.Advice.{satisfied-evaluate}
use api_verity_lab.Runtime.Monitor.{
  MonitorState, Transitions, current_of, unobserved_operations, values_of, apply_observed,
}
use api_verity_lab.Runtime.Monitor as Monitor
use api_verity_lab.Runtime.Monitor.Spec.{is_new, is_resolved, is_carried, apply_observed-reports}
use api_verity_lab.Runtime.Monitor.Steady.{apply_observed-again}
use api_verity_lab.Core.Artifact.{Bytes, contract_hash}
use api_verity_lab.Core.Artifact.Endings.{with_crlf, contract_hash-endings}

-- days are numbered from 2026-01-01
abbrev day_of : String → Option ℕ
day_of s = if s == "2026-02-01" then some 31 else none

abbrev removed_field : Finding
removed_field =
    plain_finding "BRK-FIELD-REMOVED" error ("field 'tag' was removed") (some "GET /pets")

abbrev added_field : Finding
added_field = plain_finding "BRK-FIELD-ADDED" warn ("field 'age' was added") (some "GET /pets")

abbrev justified : Suppression
justified = record {
  rule_id = "BRK-FIELD-REMOVED";
  operation_key = none;
  owner = "ana";
  reason = "the field was never filled";
  expires = some "2026-02-01";
  approved_by = "";
}

abbrev without_owner : Suppression
without_owner = record justified { rule_id = "BRK-FIELD-ADDED"; owner = " " }

abbrev found : List Finding
found = removed_field ∷ added_field ∷ []

abbrev entries : List Suppression
entries = without_owner ∷ justified ∷ []

apply_suppressions-InForce_example :
    All
      (λ (fs : Finding × Suppression). InForce day_of 10 90 false fs.1 × (matches fs.1 fs.0 ≡ true))
      (apply_suppressions day_of 10 90 false found entries).suppressed
apply_suppressions-InForce_example = apply_suppressions-InForce day_of 10 90 false found entries

apply_suppressions-keep_example :
    let result = apply_suppressions day_of 10 90 false found entries in
    (result.active ≡ keep (λ f. not (any (silences day_of 10 90 false f) entries)) found)
    × (map (λ (fs : Finding × Suppression). fs.0) result.suppressed
        ≡ keep (λ f. any (silences day_of 10 90 false f) entries) found)
apply_suppressions-keep_example = apply_suppressions-keep day_of 10 90 false found entries

-- one finding is silenced, the other is not: its entry has no owner
suppressions_example :
    let result = apply_suppressions day_of 10 90 false found entries in
    (result.active ≡ added_field ∷ []) × (result.suppressed ≡ (removed_field, justified) ∷ [])
unfolding apply_suppressions sort_entries problems is_expired split match_of strip
suppressions_example = (refl, refl)

-- versions that are one number
abbrev number_of : String → Option ℕ
number_of s = if s == "1" then some 1 else if s == "2" then some 2 else none

abbrev less_number : ℕ → ℕ → Bool
less_number m n = ltb m n

abbrev plain_version : VersionType ℕ
plain_version = record {
  parse = number_of;
  major = λ n. n;
  minor = λ n. 0;
  micro = λ n. 0;
  less = less_number;
  shown = λ n. "";
}

evaluate-Acceptable_example :
    (evaluate plain_version "1" "2" true found [] ≡ [])
    ↔ Acceptable plain_version "1" "2" true found [] 1 2
evaluate-Acceptable_example = evaluate-Acceptable plain_version "1" "2" true found [] 1 2 refl refl

advice_satisfied : (suggest_bump plain_version "1" found [] true (some "2")).satisfied ≡ true
unfolding suggest_bump demanded rules_of satisfies sorted_set keep
advice_satisfied = refl

satisfied-evaluate_example : evaluate plain_version "1" "2" true found [] ≡ []
satisfied-evaluate_example =
    satisfied-evaluate plain_version "1" "2" true found [] 1 2 refl refl refl
      (λ a b. (ground arith, refl)) advice_satisfied

abbrev drifted : Monitor.Finding
drifted = record {
  rule_id = some "DRIFT-STATUS";
  operation_key = some "GET /pets";
  message = some "500";
}

abbrev unreachable : Monitor.Finding
unreachable = record {
  rule_id = some "DRIFT-UNREACHABLE";
  operation_key = some "GET /pets";
  message = none;
}

abbrev known : MonitorState
known = record { findings = ("DRIFT-STATUS\tGET /pets", drifted) ∷ []; flaps = []; runs = 3 }

apply_observed-reports_example :
    let observed = unreachable ∷ [] in
    let out =
      (apply_observed known observed
        (some (record { negative = false; mantissa = 4; scale = 0 }))).1 in
    (out.appeared ≡ (
      if known.runs == 0
      then []
      else values_of (keep (is_new known.findings) (current_of observed))))
    × (out.resolved ≡ values_of (keep (is_resolved known observed none) known.findings))
    × (out.carried ≡ values_of (keep (is_carried known observed none) known.findings))
apply_observed-reports_example =
    apply_observed-reports known (unreachable ∷ [])
      (some (record { negative = false; mantissa = 4; scale = 0 }))

apply_observed-again_example :
    let out =
      (apply_observed (apply_observed known (unreachable ∷ []) none).0 (unreachable ∷ []) none).1 in
    (out.appeared ≡ []) × (out.resolved ≡ [])
apply_observed-again_example = apply_observed-again known (unreachable ∷ []) none none

-- "a", a line feed and "b"
abbrev two_lines : Bytes
two_lines = 97 ∷ 10 ∷ 98 ∷ []

abbrev windows_file : String → Option Bytes
windows_file path = some (with_crlf two_lines)

abbrev length_digest : Bytes → String
length_digest [] = ""
length_digest (b ∷ rest) = "a"

no_return : contains 13 two_lines ≡ false
unfolding contains
no_return = refl

no_zero : contains 0 two_lines ≡ false
unfolding contains
no_zero = refl

named : is_empty "api.yaml" ≡ false
unfolding is_empty
named = refl

contract_hash-endings_example :
    contract_hash windows_file length_digest (some "api.yaml") ≡ length_digest two_lines
contract_hash-endings_example =
    contract_hash-endings windows_file length_digest "api.yaml" two_lines no_return no_zero named
      (inr (inl refl))
