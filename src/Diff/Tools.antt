-- ===== src/Diff/Tools.antt =====
-- What only one protocol has: `_hint_word`, `_diff_mcp_tool` and `_diff_soap_operation` of
-- apiverity/diff/engine.py.
pub mod Unchanged
use api_verity_lab.Common.{
  String, ◌<>◌, Bool, true, false, not, ◌&&◌, ◌||◌, Option, some, List, [], ◌∷◌, ◌==◌, bool_ord,
  if◌then◌else◌,
}
use api_verity_lab.Model.Value.{
  Value, bool, text, dict, Members, end, member, same, truthy, get_member, dict_or_empty,
}
use api_verity_lab.Model.Operation.{Operation}
use api_verity_lab.Diff.Kind.{
  ChangeKind, soap_action_changed, soap_style_changed, soap_version_changed,
  tool_annotation_changed, tool_output_schema_changed,
}
use api_verity_lab.Diff.Change.{lit, repr, Direction, request, response, meta, plain, Event}
use api_verity_lab.Diff.Site.{when, each, in_turn}

unfoldable pub hint_word : Value → String
hint_word (bool true) = "true"
hint_word (bool false) = "false"
hint_word v = "undeclared"

-- The two sides' dicts, where both are dicts: otherwise the method returns.
unfoldable pub with_dicts :
    Option Members → Option Members → (Members → Members → List Event) → List Event
with_dicts (some old) (some new) body = body old new
with_dicts _ _ body = []

-- `x or '(none)'`
abbrev or_none : Value → Value
or_none v = if truthy v then v else text "(none)"

-- {"annotation": hint, "value": value}
abbrev annotation : String → Value → Value
annotation name v = dict (member "annotation" (text name) (member "value" v end))

module _ (old new : Operation) (key : String) where
  action_event : Value → Value → List Event
  action_event before after =
      when (not (same before after) && (truthy before || truthy after))
        (record (plain soap_action_changed key meta (
          lit ("SOAPAction for '" <> key <> "' changed from ")
          ∷ repr (or_none before)
          ∷ lit " to "
          ∷ repr (or_none after)
          ∷ [])) {
            old_value = before;
            new_value = after;
            old_location = old.source_location;
            new_location = new.source_location;
          })

  binding_event : ChangeKind → Direction → String → Value → Value → List Event
  binding_event kind direction what before after =
      when (not (same before after))
        (record (plain kind key direction (
          lit (what <> " for '" <> key <> "' changed from ")
          ∷ repr before
          ∷ lit " to "
          ∷ repr after
          ∷ [])) {
            old_value = before;
            new_value = after;
            old_location = old.source_location;
            new_location = new.source_location;
          })

  soap_events : Members → Members → List Event
  unfolding action_event binding_event get_member
  soap_events old_soap new_soap = in_turn (
      action_event (get_member "soap_action" old_soap) (get_member "soap_action" new_soap)
      ∷ binding_event soap_style_changed request "binding style" (get_member "style" old_soap)
          (get_member "style" new_soap)
      ∷ binding_event soap_version_changed meta "SOAP version" (get_member "soap_version" old_soap)
          (get_member "soap_version" new_soap)
      ∷ [])

  unfoldable pub diff_soap_operation : List Event
  unfolding soap_events
  diff_soap_operation =
      with_dicts (dict_or_empty (get_member "soap" old.bindings))
        (dict_or_empty (get_member "soap" new.bindings)) soap_events

  annotation_event : Members → Members → String → List Event
  annotation_event old_ann new_ann name =
      let before = get_member name old_ann in
      let after = get_member name new_ann in
      when (not (same before after))
        (record (plain tool_annotation_changed key meta (
          lit (
            "annotation '" <> name <> "' changed " <> hint_word before <> " -> " <> hint_word after)
          ∷ [])) {
            old_value = annotation name before;
            new_value = annotation name after;
            old_location = old.source_location;
            new_location = new.source_location;
          })

  annotation_hints : List String
  annotation_hints = "readOnlyHint" ∷ "destructiveHint" ∷ "idempotentHint" ∷ "openWorldHint" ∷ []

  output_schema_event : Bool → Bool → List Event
  output_schema_event had has =
      when (not (had == has))
        (record (plain tool_output_schema_changed key response (
          lit (
            if has
            then "tool now declares an outputSchema, so its results must conform to it"
            else "tool no longer declares an outputSchema; consumers reading structuredContent lose their guarantee")
          ∷ [])) {
            old_value = bool had;
            new_value = bool has;
            old_location = old.source_location;
            new_location = new.source_location;
          })

  tool_events : Members → Members → List Event
  unfolding annotation_event annotation_hints output_schema_event
  tool_events old_mcp new_mcp = in_turn (
      with_dicts (dict_or_empty (get_member "annotations" old_mcp))
        (dict_or_empty (get_member "annotations" new_mcp))
        (λ old_ann new_ann. each (annotation_event old_ann new_ann) annotation_hints)
      ∷ output_schema_event (truthy (get_member "declares_output_schema" old_mcp))
          (truthy (get_member "declares_output_schema" new_mcp))
      ∷ [])

  unfoldable pub diff_mcp_tool : List Event
  unfolding tool_events
  diff_mcp_tool =
      with_dicts (dict_or_empty (get_member "mcp" old.bindings))
        (dict_or_empty (get_member "mcp" new.bindings)) tool_events
