-- ===== src/Diff/Keywords.antt =====
-- `_diff_2020_12` of apiverity/diff/engine.py: the comparisons that look at no child of the node, and
-- the call for a keyword that came or went.
pub mod Unchanged
use api_verity_lab.Common.{
  ℕ, String, ◌<>◌, Bool, true, false, not, ◌&&◌, none, some, List, [], ◌∷◌, ◌++◌, ◌==◌, text_ord,
  list_ord, bool_ord, if◌then◌else◌, only_in, in_either, keys, get,
}
use api_verity_lab.Common.Text.{print}
use api_verity_lab.Model.Value.{Value, bool, text, same}
use api_verity_lab.Model.Schema.{Facts, Branch, absent, present}
use api_verity_lab.Diff.Kind.{
  ChangeKind, dependent_required_changed, tuple_shape_changed, contains_changed,
}
use api_verity_lab.Diff.Change.{Piece, lit, repr, Event, add}
use api_verity_lab.Diff.Site.{Site, is_request, noted, when, hint, opt_number, texts, nat, each}

-- d.get(name, [])
abbrev pub get_list : String → List (String × List String) → List String
get_list name d = elim (get name d) [ none ↦ [] | some xs ↦ xs ]

abbrev is_nil : List String → Bool
is_nil [] = true
is_nil (x ∷ xs) = false

module _ (old new : Facts) (s : Site) where
  dependent_required_event : String → List Event
  dependent_required_event name =
      let was = get_list name old.dependent_required in
      let now = get_list name new.dependent_required in
      let gained = only_in now was in
      let lost = only_in was now in
      let described : List Piece =
        if not (is_nil gained) && is_nil lost
        then lit " now also requires " ∷ repr (texts gained) ∷ []
        else if not (is_nil lost) && is_nil gained
        then lit " no longer requires " ∷ repr (texts lost) ∷ []
        else lit " requires changed " ∷ repr (texts was) ∷ lit " -> " ∷ repr (texts now) ∷ [] in
      let first = if is_nil gained == is_nil lost then ": the fields " else ": sending " in
      when (not (was == now))
        (record (noted dependent_required_changed s first (repr (text name) ∷ described)) {
          old_value = texts was;
          new_value = texts now;
          breaking_hint =
              if not (is_nil gained) && is_request s.direction
              then some (
                  lit "a request that sets "
                  ∷ repr (text name)
                  ∷ lit " without "
                  ∷ repr (texts gained)
                  ∷ lit " was valid and is not"
                  ∷ [])
              else none;
        })

  unfoldable pub dependent_required_events : List Event
  unfolding dependent_required_event
  dependent_required_events =
      each dependent_required_event
        (in_either (keys old.dependent_required) (keys new.dependent_required))

  contains_bound : String → Value → Value → List Event
  contains_bound keyword before after =
      when (not (same before after))
        (record (noted contains_changed s (": " <> keyword <> " changed ")
          (repr before ∷ lit " -> " ∷ repr after ∷ [])) { old_value = before; new_value = after })

  unfoldable pub contains_bounds : List Event
  unfolding contains_bound
  contains_bounds =
      contains_bound "minContains" (opt_number old.min_contains) (opt_number new.min_contains)
      ++ contains_bound "maxContains" (opt_number old.max_contains) (opt_number new.max_contains)

-- x is not None
abbrev pub is_there : Branch → Bool
is_there absent = false
is_there (present child) = true

-- A keyword that holds a schema came or went: `described` is the description for each.
unfoldable pub presence_events : ChangeKind → Site → String → String → Branch → Branch → List Event
presence_events kind s came went old new =
    when (not (is_there old == is_there new))
      (record (noted kind s (if is_there new then came else went) []) {
        old_value = bool (is_there old);
        new_value = bool (is_there new);
      })

-- One entry of a dict of schemas came or went.
unfoldable pub entry_events :
    ChangeKind → Site → List Piece → List Piece → Value → Branch → Branch → List Event
entry_events kind s came went name absent absent = []
entry_events kind s came went name absent (present new) =
    add (record (noted kind s "" came) { new_value = name }) ∷ []
entry_events kind s came went name (present old) absent =
    add (record (noted kind s "" went) { old_value = name }) ∷ []
entry_events kind s came went name (present old) (present new) = []

unfoldable pub tuple_length : Site → ℕ → ℕ → Event
tuple_length s old new =
    add
      (record (noted tuple_shape_changed s
        (": the tuple went from " <> print old <> " positional item(s) to " <> print new) []) {
          old_value = nat old;
          new_value = nat new;
          breaking_hint =
              hint
                "positional items are read by index; adding or removing one shifts every position after it";
        })
