-- ===== src/Tests/Gates.antt =====
-- The theorems on apiverity/rules/breaking.py at a shop that loses its only operation.
use api_verity_lab.Common.{
  String, true, false, none, some, List, [], ◌∷◌, ◌≡◌, refl, ◌≤◌, text_ord, any, not, is_some,
  contains, keys, dict_of, get, keep, length, only_in, in_both, sorted_set, put, put_all,
}
use api_verity_lab.Common.Text.{includes, starts_with, upper, print, is_empty}
use api_verity_lab.Model.Value.{null}
use api_verity_lab.Model.Finding.{Severity, error, Finding}
use api_verity_lab.Model.Operation.{key, Service}
use api_verity_lab.Diff.Kind.{operation_removed, request_schema_changed, value}
use api_verity_lab.Diff.Change.{
  request, plain, lit, meta, Change, perform, add_change, counter, set_counter, scope_of, change_id,
  operation_hash, take_text,
}
use api_verity_lab.Diff.Site.{hint, each, in_turn}
use api_verity_lab.Diff.Run.{by_key, events_of, run, operation_gone}
use api_verity_lab.Rules.Wording.{rendered, ends_with}
use api_verity_lab.Rules.Catalog.{catalog}
use api_verity_lab.Rules.Breaking.{
  rule_for, rule_of, severity_for, finding_of, judged, cannot_hash, evaluate_change,
  evaluate_changes,
}
use api_verity_lab.Rules.Breaking.Classified.{is_unhashable, evaluate_changes-some}
use api_verity_lab.Rules.Breaking.Gate.{is_error_at, removed_operation-any}
use api_verity_lab.Tests.Data.{create_pet, shop, digest, body_json, response_json}

abbrev small_shop : Service
small_shop = record shop { operations = create_pet ∷ [] }

abbrev closed_shop : Service
closed_shop = record shop { operations = [] }

abbrev lost_operation : Change
lost_operation = record {
  id = "CHG-OPERATION_REMOVED-01234567-1";
  call =
      record (plain operation_removed "POST /pets" meta
        (lit "operation 'POST /pets' was removed" ∷ [])) {
          breaking_hint = hint "existing clients calling this operation will fail";
        };
}

abbrev lost_finding : Finding
lost_finding = record {
  rule_id = "BRK-OP-REMOVED";
  severity = error;
  message = "operation 'POST /pets' was removed";
  operation_key = some "POST /pets";
  location = none;
  new_location = none;
  change_id = some "CHG-OPERATION_REMOVED-01234567-1";
  hint = some "existing clients calling this operation will fail";
}

closing : run digest body_json response_json small_shop closed_shop ≡ some (lost_operation ∷ [])
unfolding run events_of perform add_change counter set_counter scope_of change_id operation_hash
    take_text by_key dict_of put_all put keys only_in in_both keep contains sorted_set each in_turn
    operation_gone key upper is_empty value print get
closing = refl

judging : evaluate_changes [] (lost_operation ∷ []) ≡ some (lost_finding ∷ [])
unfolding evaluate_changes evaluate_change rule_of rule_for severity_for finding_of judged
    cannot_hash rendered catalog get
judging = refl

had_it : contains "POST /pets" (keys (dict_of (by_key small_shop.operations))) ≡ true
unfolding contains keys dict_of put_all put by_key key upper is_empty
had_it = refl

lost_it : contains "POST /pets" (keys (dict_of (by_key closed_shop.operations))) ≡ false
unfolding contains keys dict_of put_all by_key
lost_it = refl

removed_operation-any_example : any (is_error_at "POST /pets") (lost_finding ∷ []) ≡ true
removed_operation-any_example =
    removed_operation-any "POST /pets" digest body_json response_json small_shop closed_shop
      (lost_operation ∷ []) (lost_finding ∷ []) had_it lost_it closing judging

evaluate_changes-some_example :
    let overrides : List (String × Severity) = ("BRK-OP-REMOVED", error) ∷ [] in
    (is_some (evaluate_changes overrides (lost_operation ∷ []))
      ≡ not (any is_unhashable (lost_operation ∷ [])))
    × ((found : List Finding)
        → evaluate_changes overrides (lost_operation ∷ []) ≡ some found
        → length found ≤ length (lost_operation ∷ []))
evaluate_changes-some_example =
    evaluate_changes-some (("BRK-OP-REMOVED", error) ∷ []) (lost_operation ∷ [])

-- The differ's text for a lost media type is judged as a lost body, and its text for a lost
-- discriminator mapping by no rule.
wording_example :
    (rule_for request_schema_changed request "request media type 'text/csv' removed" null null
      ≡ some "BRK-REQ-BODY-REMOVED")
    × (rule_for request_schema_changed request "request body: discriminator mapping removed 'cat'"
          null null
        ≡ none)
unfolding rule_for ends_with includes starts_with
wording_example = (refl, refl)
