-- ===== src/Diff/Keywords/Unchanged.antt =====
-- `_diff_2020_12` on one node twice: the comparisons that look at no child give nothing.
use api_verity_lab.Common.{String, List, [], ◌≡◌, refl, ==_refl, text_ord, list_ord, bool_ord}
use api_verity_lab.Model.Value.{Value, same_refl}
use api_verity_lab.Model.Schema.{Facts, Branch, absent, present}
use api_verity_lab.Diff.Kind.{ChangeKind}
use api_verity_lab.Diff.Change.{Piece}
use api_verity_lab.Diff.Site.{Site, each-nil}
use api_verity_lab.Diff.Keywords.{
  dependent_required_event, dependent_required_events, contains_bounds, presence_events,
  entry_events,
}

module _ (f : Facts) (s : Site) where
  dependent_required_event_self : (name : String) → dependent_required_event f f s name ≡ []
  unfolding dependent_required_event
  dependent_required_event_self name = simp ==_refl

  pub dependent_required_events_self : dependent_required_events f f s ≡ []
  unfolding dependent_required_events
  dependent_required_events_self =
      each-nil (dependent_required_event f f s) dependent_required_event_self _

  pub contains_bounds_self : contains_bounds f f s ≡ []
  unfolding contains_bounds
  contains_bounds_self = simp same_refl

pub presence_events_self :
    (kind : ChangeKind) (s : Site) (came went : String) (b : Branch)
    → presence_events kind s came went b b ≡ []
unfolding presence_events
presence_events_self kind s came went b = simp ==_refl

pub entry_events_self :
    (kind : ChangeKind) (s : Site) (came went : List Piece) (v : Value) (b : Branch)
    → entry_events kind s came went v b b ≡ []
unfolding entry_events
entry_events_self kind s came went v absent = refl
entry_events_self kind s came went v (present child) = refl
