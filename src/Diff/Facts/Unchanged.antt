-- ===== src/Diff/Facts/Unchanged.antt =====
-- `_diff_schema` on one node twice: the comparisons that look at no child give nothing.
use api_verity_lab.Common.{
  true, Option, none, some, List, [], ◌∷◌, ◌≡◌, refl, arith, ==_refl, text_ord, bool_ord,
  option_ord,
}
use api_verity_lab.Model.Value.{Value, same_refl}
use api_verity_lab.Model.Schema.{Facts}
use api_verity_lab.Diff.Site.{Site}
use api_verity_lab.Diff.Facts.{same_values, same_enum, facts_events}

same_values_refl : (vs : List Value) → same_values vs vs ≡ true
unfolding same_values
same_values_refl [] = refl
same_values_refl (v ∷ vs) = ground (arith, same_refl v, same_values_refl vs)

same_enum_refl : (e : Option (List Value)) → same_enum e e ≡ true
unfolding same_enum
same_enum_refl none = refl
same_enum_refl (some vs) = same_values_refl vs

module _ (f : Facts) (s : Site) where
  pub facts_events_self : facts_events f f s ≡ []
  unfolding facts_events
  facts_events_self = simp (same_refl, ==_refl, same_enum_refl)
