-- ===== src/Diff/Run/Unchanged.antt =====
-- `DiffEngine.run` of apiverity/diff/engine.py on one service twice.
use api_verity_lab.Common.{
  String, Bool, true, false, Option, none, some, List, [], ◌∷◌, map, ◌≡◌, refl, arith, ==_refl,
  text_ord, list_ord, keys, dict_of, contains, sorted, if_same,
}
use api_verity_lab.Model.Value.{Members, get_member, dict_or_empty, truthy}
use api_verity_lab.Model.Operation.{RequestBody, Response, Operation, key, Service}
use api_verity_lab.Diff.Change.{perform, Event}
use api_verity_lab.Diff.Site.{in_turn-nil, done, ◌⨾◌}
use api_verity_lab.Diff.Media.Unchanged.{each_only-nil, each_both-nil}
use api_verity_lab.Diff.Tools.{with_dicts}
use api_verity_lab.Diff.Operations.Unchanged.{diff_operation_self}
use api_verity_lab.Diff.Run.{
  by_key, truncated_event, lone_tools, rename_events, diff_mcp_manifest, version_events,
  server_events, events_of, run,
}

lone_tools-nil :
    (others : List String) (ops : List Operation)
    → ((k : String) → contains k (map key ops) ≡ true → contains k others ≡ true)
    → lone_tools others ops ≡ []
unfolding lone_tools contains
lone_tools-nil others [] h = refl
lone_tools-nil others (op ∷ rest) h = ground (
  arith,
  lone_tools-nil others rest (λ k there. ground (arith, h k)),
  h (key op),
  ==_refl (key op),
)

abbrev cut_short : Option Members → Bool
cut_short none = false
cut_short (some meta) = truthy (get_member "truncated" meta)

-- the service's MCP manifest is one page of a paginated list
unfoldable pub is_one_page : Service → Bool
is_one_page s = cut_short (dict_or_empty (get_member "mcp" s.bindings))

module _ (sha256 : String → String) (body_json : RequestBody → String)
    (response_json : Response → String) (s : Service) (whole : is_one_page s ≡ false) where
  rename_self :
      rename_events sha256 body_json response_json s.operations s.operations
        (sorted (lone_tools (map key s.operations) s.operations))
        (sorted (lone_tools (map key s.operations) s.operations))
      ≡ []
  unfolding rename_events sorted
  rename_self = rw (lone_tools-nil (map key s.operations) s.operations (λ k there. there)) refl

  whole_dicts :
      (d : Option Members) (body : Members → Members → List Event)
      → cut_short d ≡ false
      → ((ms : Members) → truthy (get_member "truncated" ms) ≡ false → body ms ms ≡ [])
      → with_dicts d d body ≡ []
  unfolding with_dicts
  whole_dicts none body h each_whole = refl
  whole_dicts (some ms) body h each_whole = each_whole ms h

  manifest_self : diff_mcp_manifest sha256 body_json response_json s s ≡ []
  unfolding diff_mcp_manifest truncated_event is_one_page
  manifest_self =
      whole_dicts (dict_or_empty (get_member "mcp" s.bindings)) _ whole
        (λ ms h. in_turn-nil (rw h refl ⨾ rw h refl ⨾ rename_self ⨾ done))

  events_self : events_of sha256 body_json response_json s s ≡ []
  unfolding events_of
  events_self =
      let ops = dict_of (by_key s.operations) in
      in_turn-nil (
        each_only-nil _ (keys ops)
        ⨾ each_only-nil _ (keys ops)
        ⨾ each_both-nil ops _ _ (λ k. diff_operation_self s.global_security)
        ⨾ rw manifest_self (if_same _ _)
        ⨾ (unfold version_events in simp (==_refl))
        ⨾ (unfold server_events in simp (==_refl))
        ⨾ done)

  -- A service compared with itself has no change, and the comparison raises nothing, unless its MCP
  -- manifest says that it is one page of a longer list.
  pub run_self : run sha256 body_json response_json s s ≡ some []
  unfolding run perform
  run_self = rw (events_self, run) refl
