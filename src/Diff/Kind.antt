-- ===== src/Diff/Kind.antt =====
-- `ChangeKind` of apiverity/core/model.py, and the values of the enum.
use api_verity_lab.Common.{String}

pub data ChangeKind : Type 0 where
  operation_added operation_removed parameter_added parameter_removed : ChangeKind
  parameter_requiredness parameter_type_changed parameter_constraint_changed : ChangeKind
  enum_changed request_schema_changed response_schema_changed response_added : ChangeKind
  response_removed header_added header_removed header_changed security_changed : ChangeKind
  deprecation_added deprecation_removed description_changed example_changed : ChangeKind
  server_changed dependent_required_changed dependent_schema_changed : ChangeKind
  tuple_shape_changed pattern_properties_changed conditional_schema_changed : ChangeKind
  contains_changed property_names_changed stream_shape_changed field_removed : ChangeKind
  field_added nullability_changed argument_added rpc_removed rpc_added : ChangeKind
  field_number_reused wire_type_changed rpc_streaming_changed field_presence_changed : ChangeKind
  oneof_membership_changed reservation_changed tool_annotation_changed : ChangeKind
  tool_description_changed tool_output_schema_changed tool_rename_suspected : ChangeKind
  manifest_truncated soap_action_changed soap_style_changed soap_version_changed : ChangeKind

-- kind.value
unfoldable pub value : ChangeKind → String
value operation_added = "operation_added"
value operation_removed = "operation_removed"
value parameter_added = "parameter_added"
value parameter_removed = "parameter_removed"
value parameter_requiredness = "parameter_requiredness"
value parameter_type_changed = "parameter_type_changed"
value parameter_constraint_changed = "parameter_constraint_changed"
value enum_changed = "enum_changed"
value request_schema_changed = "request_schema_changed"
value response_schema_changed = "response_schema_changed"
value response_added = "response_added"
value response_removed = "response_removed"
value header_added = "header_added"
value header_removed = "header_removed"
value header_changed = "header_changed"
value security_changed = "security_changed"
value deprecation_added = "deprecation_added"
value deprecation_removed = "deprecation_removed"
value description_changed = "description_changed"
value example_changed = "example_changed"
value server_changed = "server_changed"
value dependent_required_changed = "dependent_required_changed"
value dependent_schema_changed = "dependent_schema_changed"
value tuple_shape_changed = "tuple_shape_changed"
value pattern_properties_changed = "pattern_properties_changed"
value conditional_schema_changed = "conditional_schema_changed"
value contains_changed = "contains_changed"
value property_names_changed = "property_names_changed"
value stream_shape_changed = "stream_shape_changed"
value field_removed = "field_removed"
value field_added = "field_added"
value nullability_changed = "nullability_changed"
value argument_added = "argument_added"
value rpc_removed = "rpc_removed"
value rpc_added = "rpc_added"
value field_number_reused = "field_number_reused"
value wire_type_changed = "wire_type_changed"
value rpc_streaming_changed = "rpc_streaming_changed"
value field_presence_changed = "field_presence_changed"
value oneof_membership_changed = "oneof_membership_changed"
value reservation_changed = "reservation_changed"
value tool_annotation_changed = "tool_annotation_changed"
value tool_description_changed = "tool_description_changed"
value tool_output_schema_changed = "tool_output_schema_changed"
value tool_rename_suspected = "tool_rename_suspected"
value manifest_truncated = "manifest_truncated"
value soap_action_changed = "soap_action_changed"
value soap_style_changed = "soap_style_changed"
value soap_version_changed = "soap_version_changed"
