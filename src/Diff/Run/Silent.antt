-- ===== src/Diff/Run/Silent.antt =====
-- What a run of `DiffEngine` (apiverity/diff/engine.py) that reports nothing says of the contracts.
use api_verity_lab.Common.{
  ◌↔◌, ◌||◌, ◌∙◌, ap, only_in_ext, only_in_self, if◌then◌else◌, String, true, some, [], ◌≡◌, refl,
  arith, ==_iff, text_ord, list_ord, contains, keys, dict_of, only_in, Option-cases, inl, inr, get,
  in_both, contains-in_both, contains-keys, subst, sym,
}
use api_verity_lab.Model.Operation.{RequestBody, Response, Operation, Service}
use api_verity_lab.Diff.Change.{fresh, perform}
use api_verity_lab.Diff.Site.{each}
use api_verity_lab.Diff.Media.{at_both}
use api_verity_lab.Diff.Operations.{diff_operation}
use api_verity_lab.Diff.Run.{
  by_key, is_mcp, diff_mcp_manifest, operation_gone, operation_new, version_events, server_events,
  events_of, run,
}
use api_verity_lab.Diff.Run.Quiet.{
  perform-length, nil_of_length, in_turn-EachNil, when_nil, each_nil, each_nil_at, no_others,
  equal_of_not, EachNil-in_turn, each-nil, when-same, if_nil, at_both-nil,
}

module _ (sha256 : String → String) (body_json : RequestBody → String)
    (response_json : Response → String) (old new : Service) where
  run_events :
      run sha256 body_json response_json old new ≡ some []
      → events_of sha256 body_json response_json old new ≡ []
  unfolding run
  run_events h =
      elim (Option-cases
        (perform sha256 fresh (events_of sha256 body_json response_json old new))) [
          | inl e ↦ cc
          | inr (engine, e) ↦
              nil_of_length _ (ground (arith, h, e, perform-length sha256 _ fresh engine e))
        ]

  module _ (h : run sha256 body_json response_json old new ≡ some []) where
    silent_keys :
        (k : String)
        → contains k (keys (dict_of (by_key old.operations)))
          ≡ contains k (keys (dict_of (by_key new.operations)))
    unfolding events_of operation_gone operation_new
    silent_keys k =
        let parts = in_turn-EachNil _ (run_events h) in
        let ko = keys (dict_of (by_key old.operations)) in
        let kn = keys (dict_of (by_key new.operations)) in
        let forth = no_others ko kn (each_nil _ (only_in ko kn) parts.0) k in
        let back = no_others kn ko (each_nil _ (only_in kn ko) parts.1.0) k in
        ground (arith, forth, back)

    silent_version : old.version ≡ new.version
    unfolding events_of version_events
    silent_version =
        let parts = in_turn-EachNil _ (run_events h) in
        equal_of_not old.version new.version (when_nil _ _ parts.1.1.1.1.0)

    silent_servers : old.servers ≡ new.servers
    unfolding events_of server_events
    silent_servers =
        let parts = in_turn-EachNil _ (run_events h) in
        equal_of_not old.servers new.servers (when_nil _ _ parts.1.1.1.1.1.0)

    -- For two operations of one key, the comparison of the operations gives nothing.
    silent_operations :
        (k : String) (o n : Operation)
        → get k (dict_of (by_key old.operations)) ≡ some o
        → get k (dict_of (by_key new.operations)) ≡ some n
        → diff_operation old.global_security new.global_security o n ≡ []
    unfolding events_of at_both
    silent_operations k o n was is =
        let parts = in_turn-EachNil _ (run_events h) in
        let olds = dict_of (by_key old.operations) in
        let news = dict_of (by_key new.operations) in
        let shared : contains k (in_both (keys olds) (keys news)) ≡ true = ground (
          arith,
          contains-in_both k (keys olds) (keys news),
          contains-keys k olds,
          contains-keys k news,
          was,
          is,
        ) in
        let none_of = each_nil_at _ k (in_both (keys olds) (keys news)) parts.1.1.0 shared in
        let f = diff_operation old.global_security new.global_security in
        subst (λ b. at_both (some o) b f ≡ []) is
          (subst (λ a. at_both a (get k news) f ≡ []) was none_of)

    silent_manifests :
        (is_mcp old.protocol || is_mcp new.protocol) ≡ true
        → diff_mcp_manifest sha256 body_json response_json old new ≡ []
    unfolding events_of
    silent_manifests tools =
        let parts = in_turn-EachNil _ (run_events h) in
        subst
          (λ b. (if b then diff_mcp_manifest sha256 body_json response_json old new else []) ≡ [])
          tools parts.1.1.1.0

  -- What a silent run says of the contracts.
  pub record IsSilent : Type 0 where
    pub keys_same :
        (k : String)
        → contains k (keys (dict_of (by_key old.operations)))
          ≡ contains k (keys (dict_of (by_key new.operations)))
    pub operations_quiet :
        (k : String) (o n : Operation)
        → get k (dict_of (by_key old.operations)) ≡ some o
        → get k (dict_of (by_key new.operations)) ≡ some n
        → diff_operation old.global_security new.global_security o n ≡ []
    pub manifests_quiet :
        (is_mcp old.protocol || is_mcp new.protocol) ≡ true
        → diff_mcp_manifest sha256 body_json response_json old new ≡ []
    pub versions_same : old.version ≡ new.version
    pub servers_same : old.servers ≡ new.servers

  IsSilent-events : IsSilent → events_of sha256 body_json response_json old new ≡ []
  unfolding events_of version_events server_events each
  IsSilent-events h =
      let olds = dict_of (by_key old.operations) in
      let news = dict_of (by_key new.operations) in
      let ko = keys olds in
      let kn = keys news in
      let nothing_gone : only_in ko kn ≡ [] =
        only_in_ext ko kn kn kn h.keys_same (λ k. refl) ∙ only_in_self kn in
      let nothing_new : only_in kn ko ≡ [] =
        only_in_ext kn ko ko ko (λ k. sym (h.keys_same k)) (λ k. refl) ∙ only_in_self ko in
      let shared =
        each-nil _ (in_both ko kn)
          (λ k there. at_both-nil olds news k _ there (h.operations_quiet k)) in
      let version = when-same _ _ ((==_iff old.version new.version).1 h.versions_same) in
      let servers = when-same _ _ ((==_iff old.servers new.servers).1 h.servers_same) in
      let manifests = if_nil _ _ h.manifests_quiet in
      EachNil-in_turn _ (
        ap (each (operation_gone olds)) nothing_gone,
        (
          ap (each (operation_new news)) nothing_new,
          (shared, (manifests, (version, (servers, tt)))),
        ),
      )

  -- A run returns without a change just when the two contracts have the same keys of operations, the
  -- same version and the same servers in the same order, the comparison of the two operations under
  -- a key gives no event for any key, and neither does that of the manifests if one is MCP.
  pub run-silent : (run sha256 body_json response_json old new ≡ some []) ↔ IsSilent
  run-silent = (
    λ h. record {
      keys_same = silent_keys h;
      operations_quiet = silent_operations h;
      manifests_quiet = silent_manifests h;
      versions_same = silent_version h;
      servers_same = silent_servers h;
    },
    λ h. unfold run in rw (IsSilent-events h) (unfold perform in refl),
  )
