-- ===== src/Diff/Media/Unchanged.antt =====
-- `_diff_request_body` and `_diff_streaming` of apiverity/diff/engine.py on one operation twice.
use api_verity_lab.Common.{
  String, Option, none, some, List, [], ◌≡◌, refl, arith, ==_refl, text_ord, nat_ord, bool_ord,
  option_ord, Ord, keys, get, only_in, only_in_self, any,
}
use api_verity_lab.Model.Schema.{SchemaNode}
use api_verity_lab.Model.Operation.{
  Encoding, StreamingMedia, RequestBody, Operation, is_sequential_media,
}
use api_verity_lab.Diff.Change.{Direction, Event}
use api_verity_lab.Diff.Site.{each, each-nil, in_turn-nil, done, ◌⨾◌}
use api_verity_lab.Diff.Schema.Unchanged.{diff_schema_self}
use api_verity_lab.Diff.Media.{
  compare_schemas, at_both, item_schema_events, encoding_event, prefix_event, media_events,
  shape_event, diff_streaming, body_changed, body_events, diff_request_body,
}

pub at_both_self {ℓ} :
    {V : Type ℓ} (x : Option V) (body : V → V → List Event)
    → ((v : V) → body v v ≡ [])
    → at_both x x body ≡ []
unfolding at_both
at_both_self none body h = refl
at_both_self (some v) body h = h v

pub each_only-nil {ℓ} :
    {A : Type ℓ} ⦃o : Ord A⦄ (body : A → List Event) (xs : List A) → each body (only_in xs xs) ≡ []
each_only-nil body xs = rw (only_in_self xs) (unfold each in refl)

pub compare_schemas_self :
    (n : SchemaNode) (key place : String) (d : Direction) → compare_schemas n n key place d ≡ []
unfolding compare_schemas
compare_schemas_self n key place d =
    diff_schema_self n (record { operation_key = key; place = place; direction = d; path = "" })

-- The values of one dict twice, key by key.
pub each_both-nil {ℓ} :
    {V : Type ℓ} (d : List (String × V)) (ks : List String) (body : String → V → V → List Event)
    → ((k : String) (v : V) → body k v v ≡ [])
    → each (λ k. at_both (get k d) (get k d) (body k)) ks ≡ []
each_both-nil d ks body h = each-nil _ (λ k. at_both_self (get k d) (body k) (h k)) ks

module _ (key place : String) (direction : Direction) where
  item_schema_self :
      (media : String) (s : Option SchemaNode)
      → item_schema_events key place direction media s s ≡ []
  unfolding item_schema_events
  item_schema_self media none = refl
  item_schema_self media (some n) = compare_schemas_self n _ _ _

  encoding_self :
      (media name : String) (e : Encoding) → encoding_event key place direction media name e e ≡ []
  unfolding encoding_event
  encoding_self media name e = simp (==_refl)

  media_self :
      (media : String) (m : StreamingMedia) → media_events key place direction media m m ≡ []
  unfolding media_events prefix_event
  media_self media m = in_turn-nil (
      item_schema_self media m.item_schema
      ⨾ each_both-nil m.item_encoding _ _ (encoding_self media)
      ⨾ (simp (==_refl))
      ⨾ done)

  shape_self : (ms : List String) → shape_event key place direction ms ms ≡ []
  unfolding shape_event
  shape_self ms = ground (arith, ==_refl (any is_sequential_media ms))

  pub diff_streaming_self :
      (s : List (String × StreamingMedia)) (c : List (String × SchemaNode))
      → diff_streaming key place direction s s c c ≡ []
  unfolding diff_streaming
  diff_streaming_self s c =
      rw (each_both-nil s _ (media_events key place direction) media_self) (shape_self _)

module _ (key : String) where
  body_self : (d : Direction) (b : RequestBody) → body_changed key d b b ≡ []
  unfolding body_changed
  body_self d b = in_turn-nil (
      each_both-nil b.content _ _ (λ media n. compare_schemas_self n _ _ _)
      ⨾ each_only-nil _ (keys b.content)
      ⨾ each_only-nil _ (keys b.content)
      ⨾ diff_streaming_self key _ d b.streaming b.content
      ⨾ (simp (==_refl))
      ⨾ done)

  bodies_self : (d : Direction) (b : Option RequestBody) → body_events key d b b ≡ []
  unfolding body_events
  bodies_self d none = refl
  bodies_self d (some b) = body_self d b

  pub diff_request_body_self : (op : Operation) → diff_request_body key op op ≡ []
  unfolding diff_request_body
  diff_request_body_self op = bodies_self _ op.request_body
