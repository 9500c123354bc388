-- ===== src/Diff/Protobuf/Unchanged.antt =====
-- `_diff_protobuf_schema` on one node twice gives nothing.
use api_verity_lab.Common.{ℕ, [], ◌≡◌, ==_refl, text_ord, nat_ord, only_in_self, only_in-nil}
use api_verity_lab.Model.Schema.{SchemaNode}
use api_verity_lab.Diff.Site.{Site, each, each-nil}
use api_verity_lab.Diff.Protobuf.{field_renumbered, protobuf_events}

module _ (n : SchemaNode) (s : Site) where
  field_renumbered_self : (number : ℕ) → field_renumbered n n s number ≡ []
  unfolding field_renumbered
  field_renumbered_self number = simp ==_refl

  pub protobuf_events_self : protobuf_events n n s ≡ []
  unfolding protobuf_events each
  protobuf_events_self = simp (
    only_in_self,
    only_in-nil,
    only_in-nil,
    each-nil (field_renumbered n n s) field_renumbered_self,
  )
