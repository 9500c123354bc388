-- ===== src/Diff/Run/Order.antt =====
-- `DiffEngine.run` of apiverity/diff/engine.py and the order in which a contract lists its operations.
use api_verity_lab.Common.{
  String, false, ◌||◌, is_some, List, [], ◌∷◌, ◌≡◌, refl, sym, ap, ◌∙◌, text_ord, contains,
  contains-keys, keys, get, dict_of, only_in_ext, in_both_ext,
}
use api_verity_lab.Model.Operation.{RequestBody, Response, Operation, Service}
use api_verity_lab.Diff.Change.{Event}
use api_verity_lab.Diff.Site.{each}
use api_verity_lab.Diff.Media.{at_both}
use api_verity_lab.Diff.Operations.{diff_operation}
use api_verity_lab.Diff.Run.{by_key, operation_gone, operation_new, is_mcp, events_of, run}

-- Two lists of operations give one dict by their keys.
abbrev pub SameByKey : List Operation → List Operation → Type 0
SameByKey xs ys = (k : String) → get k (dict_of (by_key xs)) ≡ get k (dict_of (by_key ys))

each_ext {ℓ} :
    {A : Type ℓ} (f g : A → List Event) (xs : List A)
    → ((x : A) → f x ≡ g x)
    → each f xs ≡ each g xs
unfolding each
each_ext f g [] h = refl
each_ext f g (x ∷ xs) h = rw (h x, each_ext f g xs h) refl

module _ (d e : List (String × Operation)) (h : (k : String) → get k d ≡ get k e) where
  same_keys : (k : String) → contains k (keys d) ≡ contains k (keys e)
  same_keys k = contains-keys k d ∙ ap is_some (h k) ∙ sym (contains-keys k e)

module _ (sha256 : String → String) (body_json : RequestBody → String)
    (response_json : Response → String) (old new : Service) (old_ops new_ops : List Operation)
    (same_old : SameByKey old_ops old.operations) (same_new : SameByKey new_ops new.operations)
    (not_mcp : (is_mcp old.protocol || is_mcp new.protocol) ≡ false) where
  events_order :
      events_of sha256 body_json response_json
        (record old { operations = old_ops })
        (record new { operations = new_ops })
      ≡ events_of sha256 body_json response_json old new
  unfolding events_of
  events_order =
      let a = dict_of (by_key old_ops) in
      let b = dict_of (by_key old.operations) in
      let c = dict_of (by_key new_ops) in
      let d = dict_of (by_key new.operations) in
      let ka = same_keys a b same_old in
      let kc = same_keys c d same_new in
      let gone =
        ap (each (operation_gone a)) (only_in_ext (keys a) (keys c) (keys b) (keys d) ka kc)
        ∙ each_ext (operation_gone a) (operation_gone b) _
            (λ k. unfold operation_gone in rw (same_old k) refl) in
      let come =
        ap (each (operation_new c)) (only_in_ext (keys c) (keys a) (keys d) (keys b) kc ka)
        ∙ each_ext (operation_new c) (operation_new d) _
            (λ k. unfold operation_new in rw (same_new k) refl) in
      let both =
        ap
          (each (λ k.
            at_both (get k a) (get k c) (diff_operation old.global_security new.global_security)))
          (in_both_ext (keys a) (keys c) (keys b) (keys d) ka kc)
        ∙ each_ext
            (λ k.
              at_both (get k a) (get k c) (diff_operation old.global_security new.global_security))
            (λ k.
              at_both (get k b) (get k d) (diff_operation old.global_security new.global_security))
            _ (λ k. rw (same_old k, same_new k) refl) in
      rw (gone, come, both, not_mcp) refl

  -- If the old contract is no MCP manifest, nor the new one, and each is listed again so that every key
  -- has the operation that it had (of two operations with one key, the last counts), then the
  -- changes are the same, with the same ids, in the same order.
  pub run-operations_order :
      run sha256 body_json response_json
        (record old { operations = old_ops })
        (record new { operations = new_ops })
      ≡ run sha256 body_json response_json old new
  unfolding run
  run-operations_order = rw (events_order, run) refl
