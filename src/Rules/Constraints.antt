-- ===== src/Rules/Constraints.antt =====
-- `_constraint_change_is_tightening` and `_evaluate_constraint` of apiverity/rules/breaking.py, and the
-- tests on values that its other rules use.
use api_verity_lab.Common.{
  String, Bool, true, false, not, ◌&&◌, ◌||◌, Option, none, some, List, [], ◌∷◌, ◌==◌, text_ord,
  bool_ord, if◌then◌else◌, contains,
}
use api_verity_lab.Common.Text.{includes}
use api_verity_lab.Model.Value.{
  Value, Values, Members, null, bool, number, list, dict, nil, cons, end, same, truthy,
}
use api_verity_lab.Diff.Enum.{less, hashable}
use api_verity_lab.Diff.Change.{Direction}
use api_verity_lab.Diff.Site.{is_request}
use api_verity_lab.Rules.Wording.{constraint_name}

tighten_on_increase : List String
tighten_on_increase =
    "minimum" ∷ "exclusive_minimum" ∷ "min_length" ∷ "min_items" ∷ "min_properties" ∷ "multiple_of"
    ∷ []

tighten_on_decrease : List String
tighten_on_decrease =
    "maximum" ∷ "exclusive_maximum" ∷ "max_length" ∷ "max_items" ∷ "max_properties" ∷ []

-- isinstance(v, (int, float)): a bool is an int
abbrev is_numeric : Value → Bool
is_numeric (number n) = true
is_numeric (bool b) = true
is_numeric _ = false

abbrev pub is_null : Value → Bool
is_null null = true
is_null _ = false

bound_tightened : Bool → Value → Value → Option Bool
bound_tightened on_increase old new =
    if is_null old && is_numeric new
    then some true
    else if is_null new && is_numeric old
    then some false
    else if not (is_numeric old && is_numeric new)
    then none
    else if same old new
    then none
    else (if on_increase then less old new else less new old)

unfoldable pub constraint_tightened : String → Value → Value → Option Bool
unfolding bound_tightened tighten_on_increase tighten_on_decrease
constraint_tightened attr old new =
    if attr == "pattern"
    then none
    else if attr == "const"
    then some (not (is_null new))
    else if attr == "unique_items"
    then (if truthy old == truthy new then none else some (truthy new))
    else if not (contains attr tighten_on_increase) && not (contains attr tighten_on_decrease)
    then none
    else bound_tightened (contains attr tighten_on_increase) old new

-- `v if isinstance(v, list) else []`
abbrev pub items_of : Value → Values
items_of (list xs) = xs
items_of _ = nil

holds : Value → Values → Bool
holds v nil = false
holds v (cons w ws) = same v w || holds v ws

-- Python raises `TypeError` when such a list is made a set: a list or a dict has no hash.
unfoldable pub has_unhashable : Values → Bool
has_unhashable nil = false
has_unhashable (cons v vs) = not (hashable v) || has_unhashable vs

-- some member of the first list is not one of the second
unfoldable pub has_other : Values → Values → Bool
unfolding holds
has_other nil ys = false
has_other (cons x xs) ys = not (holds x ys) || has_other xs ys

-- `v if isinstance(v, dict) else {}`
abbrev pub members_of : Value → Members
members_of (dict d) = d
members_of _ = end

-- v is True
abbrev pub is_true : Value → Bool
is_true (bool true) = true
is_true _ = false

-- one of two rules
abbrev pub pick : Bool → String → String → Option String
pick true r s = some r
pick false r s = some s

unfoldable pub constraint_rule : Direction → String → Value → Value → Option String
unfolding constraint_name
constraint_rule direction desc old new =
    let sent = is_request direction in
    if includes "format changed" desc
    then pick sent "BRK-PARAM-TYPE-CHANGED" "BRK-RESP-TYPE-CHANGED"
    else if includes "'pattern' changed" desc
    then pick sent "BRK-CONSTRAINT-TIGHTENED" "BRK-RESP-CONSTRAINT-TIGHTENED"
    else elim (constraint_tightened (constraint_name desc) old new) [
      | none ↦ none
      | some tightened ↦
          if sent
          then pick tightened "BRK-CONSTRAINT-TIGHTENED" "BRK-CONSTRAINT-LOOSENED"
          else pick tightened "BRK-RESP-CONSTRAINT-TIGHTENED" "BRK-RESP-CONSTRAINT-LOOSENED"
    ]
