-- ===== src/Diff/Tools/Unchanged.antt =====
-- `_diff_mcp_tool` and `_diff_soap_operation` of apiverity/diff/engine.py on one operation twice.
use api_verity_lab.Common.{String, Option, none, some, List, [], ◌≡◌, refl, ==_refl, bool_ord}
use api_verity_lab.Model.Value.{Members, get_member, dict_or_empty, same_refl}
use api_verity_lab.Model.Operation.{Operation}
use api_verity_lab.Diff.Change.{Event}
use api_verity_lab.Diff.Site.{each-nil, in_turn-nil, done, ◌⨾◌}
use api_verity_lab.Diff.Tools.{
  with_dicts, action_event, binding_event, soap_events, diff_soap_operation, annotation_event,
  output_schema_event, tool_events, diff_mcp_tool,
}

pub with_dicts_self :
    (d : Option Members) (body : Members → Members → List Event)
    → ((ms : Members) → body ms ms ≡ [])
    → with_dicts d d body ≡ []
unfolding with_dicts
with_dicts_self none body h = refl
with_dicts_self (some ms) body h = h ms

module _ (op : Operation) (key : String) where
  soap_self : (ms : Members) → soap_events op op key ms ms ≡ []
  unfolding soap_events
  soap_self ms = in_turn-nil (
      (unfold action_event in simp (same_refl))
      ⨾ (unfold binding_event in simp (same_refl))
      ⨾ (unfold binding_event in simp (same_refl))
      ⨾ done)

  pub diff_soap_operation_self : diff_soap_operation op op key ≡ []
  unfolding diff_soap_operation
  diff_soap_operation_self = with_dicts_self _ _ soap_self

  annotation_self : (ms : Members) (name : String) → annotation_event op op key ms ms name ≡ []
  unfolding annotation_event
  annotation_self ms name = simp (same_refl)

  tool_self : (ms : Members) → tool_events op op key ms ms ≡ []
  unfolding tool_events
  tool_self ms = in_turn-nil (
      with_dicts_self (dict_or_empty (get_member "annotations" ms)) _
        (λ ann. each-nil _ (annotation_self ann) _)
      ⨾ (unfold output_schema_event in simp (==_refl))
      ⨾ done)

  pub diff_mcp_tool_self : diff_mcp_tool op op key ≡ []
  unfolding diff_mcp_tool
  diff_mcp_tool_self = with_dicts_self _ _ tool_self
