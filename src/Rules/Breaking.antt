-- ===== src/Rules/Breaking.antt =====
-- apiverity/rules/breaking.py: the rule that a change falls under, and its severity.
pub mod Known
pub mod Classified
pub mod Gate
use api_verity_lab.Common.{
  String, Bool, true, false, not, ◌&&◌, ◌||◌, Option, none, some, List, [], ◌∷◌, ◌++◌, ◌==◌,
  text_ord, pair_ord, if◌then◌else◌, get,
}
use api_verity_lab.Common.Text.{includes}
use api_verity_lab.Model.Value.{Value, Values, Members, text, bool_eq, truthy, get_member}
use api_verity_lab.Model.Finding.{Severity, error, warn, info, Finding}
use api_verity_lab.Diff.Kind.{
  ChangeKind, operation_added, operation_removed, parameter_added, parameter_removed,
  parameter_requiredness, parameter_type_changed, parameter_constraint_changed, enum_changed,
  request_schema_changed, response_schema_changed, response_added, response_removed, header_added,
  header_removed, security_changed, deprecation_added, deprecation_removed,
  dependent_required_changed, dependent_schema_changed, tuple_shape_changed,
  pattern_properties_changed, conditional_schema_changed, contains_changed, property_names_changed,
  stream_shape_changed, nullability_changed, rpc_removed, rpc_added, field_number_reused,
  rpc_streaming_changed, field_presence_changed, oneof_membership_changed, reservation_changed,
  tool_annotation_changed, tool_description_changed, tool_output_schema_changed,
  tool_rename_suspected, manifest_truncated, soap_action_changed, soap_style_changed,
  soap_version_changed,
}
use api_verity_lab.Diff.Change.{Piece, Direction, Change}
use api_verity_lab.Diff.Site.{is_request, is_response}
use api_verity_lab.Rules.Catalog.{catalog}
use api_verity_lab.Rules.Wording.{rendered, ends_with}
use api_verity_lab.Rules.Constraints.{
  members_of, items_of, is_true, pick, has_other, has_unhashable, constraint_rule,
}

-- `_is_body_field`
abbrev is_body_field : String → Bool
is_body_field desc = includes "field '" desc

annotation_rules : List ((String × String) × String)
annotation_rules =
    (("readOnlyHint", "set"), "BRK-MCP-READONLY-HINT-SET")
    ∷ (("readOnlyHint", "cleared"), "BRK-MCP-READONLY-HINT-CLEARED")
    ∷ (("destructiveHint", "set"), "BRK-MCP-DESTRUCTIVE-HINT-SET")
    ∷ (("destructiveHint", "cleared"), "BRK-MCP-DESTRUCTIVE-HINT-CLEARED")
    ∷ (("idempotentHint", "set"), "BRK-MCP-IDEMPOTENT-HINT-SET")
    ∷ (("idempotentHint", "cleared"), "BRK-MCP-IDEMPOTENT-HINT-CLEARED")
    ∷ (("openWorldHint", "set"), "BRK-MCP-OPENWORLD-HINT-CHANGED")
    ∷ (("openWorldHint", "cleared"), "BRK-MCP-OPENWORLD-HINT-CHANGED")
    ∷ []

-- the rule of a hint that was `before` and is `after`
transition_rule : Value → Bool → Bool → Option String
unfolding annotation_rules
transition_rule (text hint) before after =
    if after && not before
    then get (hint, "set") annotation_rules
    else if before && not after
    then get (hint, "cleared") annotation_rules
    else some "BRK-MCP-ANNOTATION-DECLARATION-CHANGED"
transition_rule _ before after = none

-- `_mcp_annotation_rule`
annotation_rule : Members → Members → Option String
unfolding transition_rule
annotation_rule old new =
    let named = get_member "annotation" old in
    transition_rule (if truthy named then named else get_member "annotation" new)
      (is_true (get_member "value" old)) (is_true (get_member "value" new))

-- `_stream_rule`
stream_rule : String → String
stream_rule desc =
    if includes "changed from" desc
    then "BRK-STREAM-SEQUENTIAL-CHANGED"
    else if includes "no longer declares `itemSchema`" desc
    then "BRK-STREAM-ITEM-SCHEMA-REMOVED"
    else if includes "now declares `itemSchema`" desc
    then "BRK-STREAM-ITEM-SCHEMA-ADDED"
    else if includes "number of leading parts" desc
    then "BRK-STREAM-PREFIX-COUNT-CHANGED"
    else "BRK-STREAM-ENCODING-CHANGED"

parameter_added_rule : String → Option String
parameter_added_rule desc =
    let required = includes "(required)" desc in
    if is_body_field desc
    then pick required "BRK-REQ-FIELD-ADDED-REQUIRED" "BRK-REQ-FIELD-ADDED-OPTIONAL"
    else pick required "BRK-PARAM-ADDED-REQUIRED" "BRK-PARAM-ADDED-OPTIONAL"

requiredness_rule : Direction → String → Bool → Option String
requiredness_rule direction desc became_required =
    if is_body_field desc
    then (if is_response direction
        then pick became_required "BRK-RESP-FIELD-GUARANTEED" "BRK-RESP-FIELD-OPTIONALIZED"
        else pick became_required "BRK-REQ-FIELD-BECAME-REQUIRED" "BRK-REQ-FIELD-OPTIONALIZED")
    else pick became_required "BRK-PARAM-REQUIRED" "BRK-PARAM-OPTIONALIZED"

nullability_rule : (sent became : Bool) → Option String
nullability_rule true became = pick became "BRK-REQ-NULLABLE-ADDED" "BRK-REQ-NULLABLE-REMOVED"
nullability_rule false became = pick became "BRK-RESP-NULLABLE-ADDED" "BRK-RESP-NULLABLE-REMOVED"

enum_rule : Bool → Values → Values → Option String
enum_rule sent old new =
    if has_other old new
    then pick sent "BRK-ENUM-NARROWED-REQUEST" "BRK-ENUM-NARROWED-RESPONSE"
    else if has_other new old
    then some "BRK-ENUM-WIDENED"
    else none

request_schema_rule : String → Option String
request_schema_rule desc =
    if includes "without reserving its number" desc
    then some "BRK-FIELD-NUMBER-UNRESERVED"
    else if ends_with "removed" desc
    then some "BRK-REQ-BODY-REMOVED"
    else if includes "requiredness changed False -> True" desc || includes "became required" desc
    then some "BRK-REQ-BODY-REQUIRED"
    else if ends_with "added" desc
    then pick (includes "and required" desc) "BRK-REQ-BODY-ADDED-REQUIRED"
        "BRK-REQ-BODY-ADDED-OPTIONAL"
    else none

response_schema_rule : String → Option String
response_schema_rule desc =
    if includes "without reserving its number" desc
    then some "BRK-FIELD-NUMBER-UNRESERVED"
    else if includes "field" desc && includes "was removed" desc
    then some "BRK-RESP-FIELD-REMOVED"
    else if includes "field" desc && includes "was added" desc
    then some "BRK-RESP-FIELD-ADDED"
    else if includes "media type" desc
    then some "BRK-MEDIA-TYPE-CHANGED"
    else some "BRK-RESP-TYPE-CHANGED"

-- The rule of a change of a kind, with the texts and the values it carries.
unfoldable pub rule_for : ChangeKind → Direction → String → Value → Value → Option String
unfolding annotation_rule stream_rule parameter_added_rule requiredness_rule nullability_rule
    enum_rule request_schema_rule response_schema_rule
rule_for operation_added direction desc old new = some "BRK-OP-ADDED"
rule_for operation_removed direction desc old new = some "BRK-OP-REMOVED"
rule_for parameter_added direction desc old new = parameter_added_rule desc
rule_for parameter_removed direction desc old new =
    pick (is_body_field desc) "BRK-REQ-FIELD-REMOVED" "BRK-PARAM-REMOVED"
rule_for parameter_requiredness direction desc old new =
    requiredness_rule direction desc (is_true new)
rule_for parameter_type_changed direction desc old new =
    pick (is_request direction) "BRK-PARAM-TYPE-CHANGED" "BRK-RESP-TYPE-CHANGED"
rule_for parameter_constraint_changed direction desc old new =
    constraint_rule direction desc old new
rule_for enum_changed direction desc old new =
    enum_rule (is_request direction) (items_of old) (items_of new)
rule_for request_schema_changed direction desc old new = request_schema_rule desc
rule_for response_schema_changed direction desc old new = response_schema_rule desc
rule_for response_added direction desc old new = some "BRK-RESP-STATUS-ADDED"
rule_for response_removed direction desc old new = some "BRK-RESP-STATUS-REMOVED"
rule_for header_added direction desc old new = some "BRK-HEADER-ADDED"
rule_for header_removed direction desc old new = some "BRK-HEADER-REMOVED"
rule_for security_changed direction desc old new = some "BRK-SECURITY-CHANGED"
rule_for deprecation_added direction desc old new = some "BRK-DEPRECATION-ADDED"
rule_for deprecation_removed direction desc old new = some "BRK-DEPRECATION-REMOVED"
rule_for dependent_required_changed direction desc old new =
    pick (bool_eq (has_other (items_of new) (items_of old)) (is_request direction))
      "BRK-DEPENDENT-REQUIRED-ADDED" "BRK-DEPENDENT-REQUIRED-REMOVED"
rule_for dependent_schema_changed direction desc old new = some "BRK-DEPENDENT-SCHEMA-CHANGED"
rule_for tuple_shape_changed direction desc old new = some "BRK-TUPLE-SHAPE-CHANGED"
rule_for pattern_properties_changed direction desc old new = some "BRK-PATTERN-PROPERTIES-CHANGED"
rule_for conditional_schema_changed direction desc old new = some "BRK-CONDITIONAL-SCHEMA-CHANGED"
rule_for contains_changed direction desc old new = some "BRK-CONTAINS-CHANGED"
rule_for property_names_changed direction desc old new = some "BRK-PROPERTY-NAMES-CHANGED"
rule_for stream_shape_changed direction desc old new = some (stream_rule desc)
rule_for nullability_changed direction desc old new =
    nullability_rule (is_request direction) (truthy new)
rule_for rpc_removed direction desc old new = some "BRK-RPC-REMOVED"
rule_for rpc_added direction desc old new = some "BRK-RPC-ADDED"
rule_for field_number_reused direction desc old new = some "BRK-FIELD-NUMBER-REUSED"
rule_for rpc_streaming_changed direction desc old new = some "BRK-RPC-STREAMING-CHANGED"
rule_for field_presence_changed direction desc old new = some "BRK-FIELD-PRESENCE-LOST"
rule_for oneof_membership_changed direction desc old new =
    pick (includes "moved into" desc) "BRK-ONEOF-NARROWED" "BRK-ONEOF-WIDENED"
rule_for reservation_changed direction desc old new = some "BRK-RESERVATION-REMOVED"
rule_for tool_annotation_changed direction desc old new =
    annotation_rule (members_of old) (members_of new)
rule_for tool_description_changed direction desc old new = some "BRK-MCP-TOOL-DESCRIPTION-CHANGED"
rule_for tool_output_schema_changed direction desc old new =
    pick (truthy new) "BRK-MCP-OUTPUT-SCHEMA-ADDED" "BRK-MCP-OUTPUT-SCHEMA-REMOVED"
rule_for tool_rename_suspected direction desc old new = some "BRK-MCP-TOOL-RENAME-SUSPECTED"
rule_for manifest_truncated direction desc old new = some "BRK-MCP-MANIFEST-TRUNCATED"
rule_for soap_action_changed direction desc old new = some "BRK-SOAP-ACTION-CHANGED"
rule_for soap_style_changed direction desc old new = some "BRK-SOAP-STYLE-CHANGED"
rule_for soap_version_changed direction desc old new = some "BRK-SOAP-VERSION-CHANGED"
rule_for _ direction desc old new = none

unfoldable pub rule_of : Change → Option String
rule_of c = rule_for c.kind c.direction (rendered c.description) c.old_value c.new_value

-- `Severity(value)`
unfoldable pub severity_of : String → Option Severity
severity_of value =
    if value == "ERROR"
    then some error
    else if value == "WARN"
    then some warn
    else if value == "INFO"
    then some info
    else none

-- the rules' severities, with the overrides before the catalog; `none` where Python raises `KeyError`
unfoldable pub severity_for : List (String × Severity) → String → Option Severity
severity_for overrides rule = elim (get rule catalog) [
  | none ↦ none
  | some severity ↦ elim (get rule overrides) [ none ↦ some severity | some other ↦ some other ]
]

rendered_hint : Option (List Piece) → Option String
rendered_hint none = none
rendered_hint (some pieces) = some (rendered pieces)

unfoldable pub finding_of : Change → String → Severity → Finding
unfolding rendered_hint
finding_of c rule severity = record {
  rule_id = rule;
  severity = severity;
  message = rendered c.description;
  operation_key = some c.operation_key;
  location = c.old_location;
  new_location = c.new_location;
  change_id = some c.id;
  hint = rendered_hint c.breaking_hint;
}

-- set(after) - set(before) raises `TypeError`
unfoldable pub cannot_hash : ChangeKind → Value → Value → Bool
cannot_hash dependent_required_changed old new =
    has_unhashable (items_of old) || has_unhashable (items_of new)
cannot_hash _ old new = false

-- the finding of a rule; `none` where Python raises `KeyError`
unfoldable pub judged : List (String × Severity) → Change → Option String → Option (List Finding)
judged overrides c none = some []
judged overrides c (some rule) = elim (severity_for overrides rule) [
  | none ↦ none
  | some severity ↦ some (finding_of c rule severity ∷ [])
]

-- `_evaluate_change`: the findings of one change, or `none` where Python raises `KeyError` or
-- `TypeError`
unfoldable pub evaluate_change : List (String × Severity) → Change → Option (List Finding)
evaluate_change overrides c =
    if cannot_hash c.kind c.old_value c.new_value then none else judged overrides c (rule_of c)

append_found : Option (List Finding) → Option (List Finding) → Option (List Finding)
append_found (some xs) (some ys) = some (xs ++ ys)
append_found _ _ = none

unfoldable pub evaluate_changes : List (String × Severity) → List Change → Option (List Finding)
unfolding append_found
evaluate_changes overrides [] = some []
evaluate_changes overrides (c ∷ rest) =
    append_found (evaluate_change overrides c) (evaluate_changes overrides rest)

-- `{rule_id: Severity(value) for …}`; `none` where Python raises `ValueError`
unfoldable pub read_overrides : List (String × String) → Option (List (String × Severity))
unfolding severity_of
read_overrides [] = some []
read_overrides ((rule, value) ∷ rest) =
    let others = read_overrides rest in
    elim (severity_of value) [
      | none ↦ none
      | some severity ↦ elim others [ none ↦ none | some read ↦ some ((rule, severity) ∷ read) ]
    ]

-- `evaluate_breaking`
unfoldable pub evaluate_breaking : List Change → List (String × String) → Option (List Finding)
evaluate_breaking changes severity_overrides = elim (read_overrides severity_overrides) [
  | none ↦ none
  | some overrides ↦ evaluate_changes overrides changes
]
