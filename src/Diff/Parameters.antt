-- ===== src/Diff/Parameters.antt =====
-- `_schema_summary`, `_diff_parameters` and `_diff_grpc_signature` of apiverity/diff/engine.py.
pub mod Unchanged
use api_verity_lab.Common.{
  String, ◌<>◌, Bool, true, false, not, ◌&&◌, Option, none, some, List, [], ◌∷◌, ◌==◌, text_ord,
  bool_ord, pair_ord, if◌then◌else◌, only_in, in_both, keys, get, dict_of,
}
use api_verity_lab.Common.Text.{is_empty}
use api_verity_lab.Model.Value.{Value, null, bool, text, list}
use api_verity_lab.Model.Repr.{repr_value}
use api_verity_lab.Model.Schema.{SourceLocation, SchemaNode, facts}
use api_verity_lab.Model.Operation.{
  location_value, Parameter, grpc_rpc, is_kind, Operation, or_else,
}
use api_verity_lab.Diff.Kind.{
  parameter_removed, parameter_added, parameter_requiredness, parameter_type_changed,
  rpc_streaming_changed,
}
use api_verity_lab.Diff.Change.{lit, request, meta, plain, Event, add}
use api_verity_lab.Diff.Site.{when, hint, hint_if, values, each, in_turn}
use api_verity_lab.Diff.Media.{compare_schemas, at_both}

summary_format : Option String → String
summary_format none = ""
summary_format (some f) = if is_empty f then "" else "(" <> f <> ")"

summary_enum : Option (List Value) → String
summary_enum none = ""
summary_enum (some vs) = " enum" <> repr_value (list (values vs))

summary_const : Value → String
summary_const null = ""
summary_const v = " const=" <> repr_value v

unfoldable pub schema_summary : Option SchemaNode → String
unfolding summary_format summary_enum summary_const
schema_summary none = "absent"
schema_summary (some s) =
    or_else (facts s).type "any"
    <> summary_format (facts s).format
    <> summary_enum (facts s).enum
    <> summary_const (facts s).const

-- {(p.name, p.location.value): p for p in params}
by_ident : List Parameter → List ((String × String) × Parameter)
by_ident [] = []
by_ident (p ∷ rest) = ((p.name, location_value p.location), p) ∷ by_ident rest

abbrev parameter_location : Option Parameter → Option SourceLocation
parameter_location none = none
parameter_location (some p) = p.source_location

abbrev is_required : Option Parameter → Bool
is_required none = false
is_required (some p) = p.required

-- f"{b}" of a bool
abbrev shown_bool : Bool → String
shown_bool true = "True"
shown_bool false = "False"

module _ (key : String) where
  parameter_gone : List ((String × String) × Parameter) → String × String → List Event
  parameter_gone old ident =
      add
        (record (plain parameter_removed key request
          (lit ("parameter '" <> ident.0 <> "' (" <> ident.1 <> ") was removed") ∷ [])) {
            old_location = parameter_location (get ident old);
            breaking_hint = hint "clients still sending this parameter may receive errors";
          })
      ∷ []

  parameter_new : List ((String × String) × Parameter) → String × String → List Event
  parameter_new new ident =
      let required = is_required (get ident new) in
      add
        (record (plain parameter_added key request (
          lit (
            "parameter '"
            <> ident.0
            <> "' ("
            <> ident.1
            <> ") was added"
            <> (if required then " (required)" else ""))
          ∷ [])) {
            new_location = parameter_location (get ident new);
            breaking_hint = hint_if required "new required parameter: existing clients will fail";
          })
      ∷ []

  requiredness_events : String × String → Parameter → Parameter → List Event
  requiredness_events ident old new =
      when (not (old.required == new.required))
        (record (plain parameter_requiredness key request (
          lit (
            "parameter '"
            <> ident.0
            <> "' ("
            <> ident.1
            <> ") requiredness changed "
            <> shown_bool old.required
            <> " -> "
            <> shown_bool new.required)
          ∷ [])) {
            old_value = bool old.required;
            new_value = bool new.required;
            old_location = old.source_location;
            new_location = new.source_location;
            breaking_hint =
                hint_if new.required
                  "parameter became required: existing clients omitting it will fail";
          })

  parameter_schema_events : String × String → Parameter → Parameter → List Event
  unfolding compare_schemas
  parameter_schema_events ident old new =
      let before = schema_summary old.schema_node in
      let after = schema_summary new.schema_node in
      if before == after
      then at_both old.schema_node new.schema_node
          (λ o n. compare_schemas o n key ("request parameter '" <> ident.0 <> "'") request)
      else add
          (record (plain parameter_type_changed key request (
            lit (
              "parameter '" <> ident.0 <> "' (" <> ident.1 <> ") type changed '" <> before
              <> "' -> '" <> after <> "'")
            ∷ [])) {
              old_value = text before;
              new_value = text after;
              old_location = old.source_location;
              new_location = new.source_location;
            })
        ∷ []

  parameter_pair : String × String → Parameter → Parameter → List Event
  unfolding requiredness_events parameter_schema_events
  parameter_pair ident old new =
      in_turn (requiredness_events ident old new ∷ parameter_schema_events ident old new ∷ [])

  unfoldable pub diff_parameters : Operation → Operation → List Event
  unfolding by_ident parameter_gone parameter_new parameter_pair
  diff_parameters old new =
      let old_p = dict_of (by_ident old.parameters) in
      let new_p = dict_of (by_ident new.parameters) in
      in_turn (
        each (parameter_gone old_p) (only_in (keys old_p) (keys new_p))
        ∷ each (parameter_new new_p) (only_in (keys new_p) (keys old_p))
        ∷ each (λ ident. at_both (get ident old_p) (get ident new_p) (parameter_pair ident))
            (in_both (keys old_p) (keys new_p))
        ∷ [])

-- `describe` of `_diff_grpc_signature`
cardinality : Operation → String
cardinality op =
    if op.client_streaming && op.server_streaming
    then "bidirectional streaming"
    else if op.client_streaming
    then "client streaming"
    else if op.server_streaming
    then "server streaming"
    else "unary"

unfoldable pub diff_grpc_signature : Operation → Operation → String → List Event
unfolding cardinality
diff_grpc_signature old new key =
    when
      (is_kind old.kind grpc_rpc
        && is_kind new.kind grpc_rpc
        && not (
            old.client_streaming == new.client_streaming
            && old.server_streaming == new.server_streaming))
      (record (plain rpc_streaming_changed key meta
        (lit ("RPC changed from " <> cardinality old <> " to " <> cardinality new) ∷ [])) {
          old_value = text (cardinality old);
          new_value = text (cardinality new);
          old_location = old.source_location;
          new_location = new.source_location;
          breaking_hint =
              hint
                "generated clients call this method with the wrong cardinality and fail at the transport";
        })
