-- ===== src/Diff/Operations.antt =====
-- `_diff_security` and `_diff_operation` of apiverity/diff/engine.py. The two contracts share no
-- `Operation` object.
pub mod Unchanged
use api_verity_lab.Common.{
  String, ◌<>◌, Bool, true, false, not, ◌&&◌, ◌||◌, Option, none, some, List, [], ◌∷◌, ◌==◌,
  text_ord, bool_ord, nat_ord, option_ord, list_ord, if◌then◌else◌, length, sorted, keys, get,
  dict_of,
}
use api_verity_lab.Common.Text.{is_empty}
use api_verity_lab.Model.Value.{Value, same}
use api_verity_lab.Model.Operation.{Example, Operation, is_kind, mcp_tool, soap_operation, key}
use api_verity_lab.Diff.Kind.{
  security_changed, deprecation_added, deprecation_removed, tool_description_changed,
  description_changed, example_changed,
}
use api_verity_lab.Diff.Change.{lit, repr, security, meta, plain, Event, add}
use api_verity_lab.Diff.Site.{when, hint, texts, opt_text, in_turn}
use api_verity_lab.Diff.Parameters.{diff_parameters, diff_grpc_signature}
use api_verity_lab.Diff.Media.{diff_request_body}
use api_verity_lab.Diff.Responses.{diff_responses}
use api_verity_lab.Diff.Tools.{diff_mcp_tool, diff_soap_operation}

-- `sec_str`: the operation's requirements, or the global ones where it declares none
abbrev schemes : Operation → List String → List String
schemes op inherited = elim op.security [
  | none ↦ sorted inherited
  | some declared ↦ sorted declared
]

-- {e.name: e.value for e in examples}
by_name : List Example → List (String × Value)
by_name [] = []
by_name (e ∷ rest) = (e.name, e.value) ∷ by_name rest

has_same : Option Value → Value → Bool
has_same none v = false
has_same (some w) v = same v w

all_in : List (String × Value) → List (String × Value) → Bool
unfolding has_same
all_in [] e = true
all_in ((k, v) ∷ rest) e = has_same (get k e) v && all_in rest e

-- `==` of two dicts
unfoldable pub same_dict : List (String × Value) → List (String × Value) → Bool
unfolding all_in
same_dict d e = length d == length e && all_in d e

-- s or t
abbrev either : Option String → Option String → Option String
either none t = t
either (some s) t = if is_empty s then t else some s

module _ (key : String) (old new : Operation) where
  unfoldable pub diff_security : (old_global new_global : List String) → List Event
  diff_security old_global new_global =
      let before = schemes old old_global in
      let after = schemes new new_global in
      when (not (before == after))
        (record (plain security_changed key security (
          lit "security requirements changed "
          ∷ repr (texts before)
          ∷ lit " -> "
          ∷ repr (texts after)
          ∷ [])) {
            old_value = texts before;
            new_value = texts after;
            old_location = old.source_location;
            new_location = new.source_location;
            breaking_hint = hint "clients without the new credentials will fail authentication";
          })

  deprecation_events : Bool → Bool → List Event
  deprecation_events false true =
      add
        (record (plain deprecation_added key meta
          (lit ("operation '" <> key <> "' is now deprecated") ∷ [])) {
            new_location = new.source_location;
          })
      ∷ []
  deprecation_events true false =
      add
        (record (plain deprecation_removed key meta
          (lit ("operation '" <> key <> "' deprecation was removed") ∷ [])) {
            old_location = old.source_location;
          })
      ∷ []
  deprecation_events _ _ = []

  documentation_events : List Event
  documentation_events =
      when (not (old.description == new.description) || not (old.summary == new.summary))
        (record (plain
          (if is_kind old.kind mcp_tool then tool_description_changed else description_changed) key
          meta (lit ("documentation changed for '" <> key <> "'") ∷ [])) {
            old_value = opt_text (either old.summary old.description);
            new_value = opt_text (either new.summary new.description);
          })

  example_events : List Event
  unfolding by_name
  example_events =
      let before = dict_of (by_name old.examples) in
      let after = dict_of (by_name new.examples) in
      when (not (same_dict before after))
        (record (plain example_changed key meta
          (lit ("examples changed for '" <> key <> "'") ∷ [])) {
            old_value = texts (sorted (keys before));
            new_value = texts (sorted (keys after));
          })

-- The global requirements of the two contracts stand for `self.old` and `self.new`.
unfoldable pub diff_operation :
    (old_global new_global : List String) → Operation → Operation → List Event
unfolding deprecation_events documentation_events example_events
diff_operation old_global new_global old new =
    let k = key old in
    in_turn (
      diff_parameters k old new
      ∷ diff_grpc_signature old new k
      ∷ diff_request_body k old new
      ∷ diff_responses k old new
      ∷ diff_security k old new old_global new_global
      ∷ deprecation_events k old new old.deprecated new.deprecated
      ∷ documentation_events k old new
      ∷ (if is_kind old.kind mcp_tool && is_kind new.kind mcp_tool
          then diff_mcp_tool old new k
          else [])
      ∷ (if is_kind old.kind soap_operation && is_kind new.kind soap_operation
          then diff_soap_operation old new k
          else [])
      ∷ example_events k old new
      ∷ [])
