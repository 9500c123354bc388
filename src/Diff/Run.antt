-- ===== src/Diff/Run.antt =====
-- `_tool_shape`, `_diff_mcp_manifest`, `run` and `diff_services(canonical=False)` of
-- apiverity/diff/engine.py.
pub mod Unchanged
pub mod Order
pub mod Quiet
pub mod Silent
use api_verity_lab.Common.{
  String, ◌<>◌, Bool, true, false, not, ◌&&◌, ◌||◌, Option, none, some, List, [], ◌∷◌, map, ◌==◌,
  text_ord, option_ord, list_ord, if◌then◌else◌, contains, sorted, only_in, in_both, keys, get,
  dict_of,
}
use api_verity_lab.Common.Text.{is_empty}
use api_verity_lab.Model.Value.{bool, text, Members, truthy, get_member, dict_or_empty}
use api_verity_lab.Model.Schema.{SourceLocation}
use api_verity_lab.Model.Operation.{
  Protocol, mcp, RequestBody, Response, http, mcp_tool, is_kind, Operation, key, Service,
}
use api_verity_lab.Diff.Kind.{
  rpc_removed, operation_removed, rpc_added, operation_added, manifest_truncated,
  tool_rename_suspected, description_changed, server_changed,
}
use api_verity_lab.Diff.Change.{lit, repr, meta, plain, Event, add, Change, Engine, fresh, perform}
use api_verity_lab.Diff.Site.{when, hint, texts, each, in_turn}
use api_verity_lab.Diff.Media.{at_both}
use api_verity_lab.Diff.Tools.{with_dicts}
use api_verity_lab.Diff.Operations.{diff_operation}

-- {op.key: op for op in operations}
unfoldable pub by_key : List Operation → List (String × Operation)
by_key [] = []
by_key (op ∷ rest) = (key op, op) ∷ by_key rest

abbrev is_http : Option Operation → Bool
is_http none = true
is_http (some op) = is_kind op.kind http

abbrev operation_location : Option Operation → Option SourceLocation
operation_location none = none
operation_location (some op) = op.source_location

unfoldable pub operation_gone : List (String × Operation) → String → List Event
operation_gone old key =
    add
      (record (plain (if is_http (get key old) then operation_removed else rpc_removed) key meta
        (lit ("operation '" <> key <> "' was removed") ∷ [])) {
          old_location = operation_location (get key old);
          breaking_hint = hint "existing clients calling this operation will fail";
        })
    ∷ []

operation_new : List (String × Operation) → String → List Event
operation_new new key =
    add
      (record (plain (if is_http (get key new) then operation_added else rpc_added) key meta
        (lit ("operation '" <> key <> "' was added") ∷ [])) {
          new_location = operation_location (get key new);
        })
    ∷ []

truncated_event : Bool → Members → List Event
truncated_event is_old bindings =
    when (truthy (get_member "truncated" bindings))
      (record (plain manifest_truncated "(service)" meta (
        lit (
          "the "
          <> (if is_old then "old" else "new")
          <> " manifest is one page of a paginated tools/list; tools beyond it will read as removed")
        ∷ [])) { old_value = bool is_old; new_value = bool (not is_old) })

-- the names of the tools whose keys are not among `others`, in the order of the manifest
lone_tools : List String → List Operation → List String
lone_tools others [] = []
lone_tools others (op ∷ rest) =
    let names = lone_tools others rest in
    elim op.rpc_name [
      | none ↦ names
      | some name ↦
          if is_kind op.kind mcp_tool && not (is_empty name) && not (contains (key op) others)
          then name ∷ names
          else names
    ]

-- next(o for o in operations if o.rpc_name == name); it is called for a name of theirs only
named : String → List Operation → Option Operation
named name [] = none
named name (op ∷ rest) = if op.rpc_name == some name then some op else named name rest

abbrev pub is_mcp : Protocol → Bool
is_mcp mcp = true
is_mcp _ = false

-- `"".join(texts)`
join : List String → String
join [] = ""
join (s ∷ rest) = s <> join rest

-- self.changes, where nothing was raised
abbrev pub changes_of : Option Engine → Option (List Change)
changes_of none = none
changes_of (some engine) = some engine.changes

-- `sha256` gives the hexadecimal digest of a text; `body_json` and `response_json` are pydantic's
-- `model_dump_json`.
module _ (sha256 : String → String) (body_json : RequestBody → String)
    (response_json : Response → String) where
  abbrev body_text : Option RequestBody → String
  body_text none = ""
  body_text (some body) = body_json body

  unfoldable pub tool_shape : Operation → String
  unfolding join
  tool_shape op =
      sha256 (body_text op.request_body <> "|" <> join (sorted (map response_json op.responses)))

  same_shape : Option Operation → Option Operation → Bool
  same_shape (some gone) (some fresh) = tool_shape gone == tool_shape fresh
  same_shape _ _ = false

  rename_events : List Operation → List Operation → List String → List String → List Event
  unfolding same_shape named
  rename_events old new (gone ∷ []) (come ∷ []) =
      when (same_shape (named gone old) (named come new))
        (record (plain tool_rename_suspected ("tool " <> gone) meta (
          lit (
            "tool '" <> gone <> "' disappeared and '" <> come
            <> "' appeared with an identical schema; this may be a rename, which agents calling the old name cannot follow")
          ∷ [])) { old_value = text gone; new_value = text come })
  rename_events old new removed added = []

  unfoldable pub diff_mcp_manifest : Service → Service → List Event
  unfolding truncated_event lone_tools rename_events
  diff_mcp_manifest old new =
      with_dicts (dict_or_empty (get_member "mcp" old.bindings))
        (dict_or_empty (get_member "mcp" new.bindings))
        (λ old_mcp new_mcp. in_turn (
          truncated_event true old_mcp
          ∷ truncated_event false new_mcp
          ∷ rename_events old.operations new.operations
              (sorted (lone_tools (map key new.operations) old.operations))
              (sorted (lone_tools (map key old.operations) new.operations))
          ∷ []))

  version_events : String → String → List Event
  version_events old new =
      when (not (old == new))
        (record (plain description_changed "(service)" meta
          (lit ("contract version changed '" <> old <> "' -> '" <> new <> "'") ∷ [])) {
            old_value = text old;
            new_value = text new;
          })

  server_events : List String → List String → List Event
  server_events old new =
      when (not (old == new))
        (record (plain server_changed "(service)" meta
          (lit "server list changed " ∷ repr (texts old) ∷ lit " -> " ∷ repr (texts new) ∷ [])) {
            old_value = texts old;
            new_value = texts new;
          })

  -- what `run` does, call by call
  unfoldable pub events_of : Service → Service → List Event
  unfolding operation_gone operation_new version_events server_events
  events_of old new =
      let old_ops = dict_of (by_key old.operations) in
      let new_ops = dict_of (by_key new.operations) in
      in_turn (
        each (operation_gone old_ops) (only_in (keys old_ops) (keys new_ops))
        ∷ each (operation_new new_ops) (only_in (keys new_ops) (keys old_ops))
        ∷ each
            (λ k.
              at_both (get k old_ops) (get k new_ops)
                (diff_operation old.global_security new.global_security))
            (in_both (keys old_ops) (keys new_ops))
        ∷ (if is_mcp old.protocol || is_mcp new.protocol then diff_mcp_manifest old new else [])
        ∷ version_events old.version new.version
        ∷ server_events old.servers new.servers
        ∷ [])

  -- `none` where the comparison raises `TypeError`
  unfoldable pub run : Service → Service → Option (List Change)
  run old new = changes_of (perform sha256 fresh (events_of old new))
