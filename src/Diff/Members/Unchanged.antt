-- ===== src/Diff/Members/Unchanged.antt =====
-- `_diff_schema` on one node twice: no property, no requirement and no variant came or went.
use api_verity_lab.Common.{
  String, Option, none, some, [], ◌≡◌, refl, only_in_self, if_same, text_ord, get,
}
use api_verity_lab.Model.Value.{Value, same_refl}
use api_verity_lab.Model.Schema.{SchemaNode, Discriminator}
use api_verity_lab.Diff.Site.{Site, each, each-nil}
use api_verity_lab.Diff.Members.{
  property_events, required_events, mapping_of, mapping_pair, mapping_changed, discriminator_events,
}

module _ (n : SchemaNode) (s : Site) where
  pub property_events_self : property_events n n s ≡ []
  unfolding property_events each
  property_events_self = simp only_in_self

  pub required_events_self : required_events n n s ≡ []
  unfolding required_events each
  required_events_self = simp only_in_self

module _ (d : Option Discriminator) (s : Site) where
  mapping_pair_self : (key : String) (v : Option Value) → mapping_pair d d s key v v ≡ []
  unfolding mapping_pair
  mapping_pair_self key none = refl
  mapping_pair_self key (some v) = simp same_refl

  mapping_changed_self : (key : String) → mapping_changed d d s key ≡ []
  unfolding mapping_changed
  mapping_changed_self key = mapping_pair_self key (get key (mapping_of d))

  pub discriminator_events_self : discriminator_events d d s ≡ []
  unfolding discriminator_events each
  discriminator_events_self =
      simp (same_refl, only_in_self, each-nil (mapping_changed d d s) mapping_changed_self)
        (if_same _ _)
