-- ===== src/Diff/Operations/Unchanged.antt =====
-- `_diff_operation` of apiverity/diff/engine.py on one operation twice.
use api_verity_lab.Common.{
  String, Bool, true, false, some, List, [], ◌∷◌, ◌≡◌, refl, arith, ==_iff, ==_refl, text_ord,
  nat_ord, option_ord, list_ord, bool_ord, get, dict_of, IsDict, dict_of-IsDict, is_some, length,
  if_same,
}
use api_verity_lab.Model.Value.{Value, same_refl}
use api_verity_lab.Model.Operation.{Operation, key}
use api_verity_lab.Diff.Site.{in_turn-nil, done, ◌⨾◌}
use api_verity_lab.Diff.Parameters.Unchanged.{diff_parameters_self, diff_grpc_signature_self}
use api_verity_lab.Diff.Media.Unchanged.{diff_request_body_self}
use api_verity_lab.Diff.Responses.Unchanged.{diff_responses_self}
use api_verity_lab.Diff.Tools.Unchanged.{diff_mcp_tool_self, diff_soap_operation_self}
use api_verity_lab.Diff.Operations.{
  by_name, all_in, same_dict, diff_security, deprecation_events, documentation_events,
  example_events, diff_operation,
}

deprecation_self : (k : String) (op : Operation) (b : Bool) → deprecation_events k op op b b ≡ []
unfolding deprecation_events
deprecation_self k op true = refl
deprecation_self k op false = refl

module _ (k : String) (op : Operation) where
  security_self : (inherited : List String) → diff_security k op op inherited inherited ≡ []
  unfolding diff_security
  security_self inherited = simp (==_refl)

  documentation_self : documentation_events k op op ≡ []
  unfolding documentation_events
  documentation_self = simp (==_refl)

-- `e` gives what `d` gives at every key of `d`.
all_in-true :
    (d e : List (String × Value))
    → IsDict d
    → ((k : String) → is_some (get k d) ≡ true → get k e ≡ get k d)
    → all_in d e ≡ true
unfolding all_in get
all_in-true [] e h agree = refl
all_in-true ((k, v) ∷ rest) e h agree =
    let found : get k e ≡ some v = unfold get in ground (arith, agree k, ==_refl k) in
    let others = all_in-true rest e h.1 (λ j there. ground (arith, agree j, h.0, ==_iff k j)) in
    rw (found, same_refl v) others

same_dict_self : (d : List (String × Value)) → IsDict d → same_dict d d ≡ true
unfolding same_dict
same_dict_self d h = rw (==_refl (length d)) (all_in-true d d h (λ k there. refl))

module _ (k : String) (op : Operation) where
  example_self : example_events k op op ≡ []
  unfolding example_events
  example_self =
      rw (same_dict_self (dict_of (by_name op.examples)) (dict_of-IsDict (by_name op.examples)))
        refl

-- An operation compared with itself, under the same global requirements, changes nothing.
pub diff_operation_self :
    (inherited : List String) (op : Operation) → diff_operation inherited inherited op op ≡ []
unfolding diff_operation
diff_operation_self inherited op =
    let k = key op in
    in_turn-nil (
      diff_parameters_self k op
      ⨾ diff_grpc_signature_self op k
      ⨾ diff_request_body_self k op
      ⨾ diff_responses_self k op
      ⨾ security_self k op inherited
      ⨾ deprecation_self k op op.deprecated
      ⨾ documentation_self k op
      ⨾ rw (diff_mcp_tool_self op k) (if_same _ _)
      ⨾ rw (diff_soap_operation_self op k) (if_same _ _)
      ⨾ example_self k op
      ⨾ done)
