-- ===== src/Diff/Enum.antt =====
-- `sorted(set(old) - set(new))` over the values of an `enum`, with the exceptions that Python raises:
-- a list or a dict has no hash, and values of different types have no order.
use api_verity_lab.Common.{
  ◌*◌, ◌^◌, Bool, true, false, not, ◌&&◌, ◌||◌, Option, none, some, List, [], ◌∷◌, compare_text,
  Ordering, ltb, if◌then◌else◌, keep,
}
use api_verity_lab.Model.Value.{Number, Value, bool, number, text, list, dict, same, of_bool}

-- a < b, for numbers
less_number : Number → Number → Bool
less_number a b =
    let size_a = a.mantissa * 10 ^ b.scale in
    let size_b = b.mantissa * 10 ^ a.scale in
    if a.negative
    then (if b.negative then ltb size_b size_a else ltb 0 size_a || ltb 0 size_b)
    else (if b.negative then false else ltb size_a size_b)

-- a < b; `none` where Python raises `TypeError`
unfoldable pub less : Value → Value → Option Bool
unfolding less_number
less (text s) (text t) = some (elim (compare_text s t) [ Ordering.lt ↦ true | _ ↦ false ])
less (number m) (number n) = some (less_number m n)
less (number m) (bool b) = some (less_number m (of_bool b))
less (bool a) (number n) = some (less_number (of_bool a) n)
less (bool a) (bool b) = some (less_number (of_bool a) (of_bool b))
less _ _ = none

pub hashable : Value → Bool
hashable (list xs) = false
hashable (dict xs) = false
hashable _ = true

all_hashable : List Value → Bool
unfolding hashable
all_hashable [] = true
all_hashable (v ∷ vs) = hashable v && all_hashable vs

-- v in vs
unfoldable pub has_value : Value → List Value → Bool
has_value v [] = false
has_value v (w ∷ vs) = same v w || has_value v vs

-- set(vs), in the order of first occurrence
unique : List Value → List Value
unfolding has_value
unique [] = []
unique (v ∷ vs) = v ∷ keep (λ w. not (same v w)) (unique vs)

insert_value : Value → List Value → Option (List Value)
unfolding less
insert_value v [] = some (v ∷ [])
insert_value v (w ∷ vs) =
    let rest = insert_value v vs in
    elim (less v w) [
      | none ↦ none
      | some true ↦ some (v ∷ w ∷ vs)
      | some false ↦ elim rest [ none ↦ none | some vs' ↦ some (w ∷ vs') ]
    ]

-- sorted(vs)
sorted_values : List Value → Option (List Value)
unfolding insert_value
sorted_values [] = some []
sorted_values (v ∷ vs) = elim (sorted_values vs) [ none ↦ none | some vs' ↦ insert_value v vs' ]

-- sorted(set(xs) - set(ys))
unfoldable pub value_difference : List Value → List Value → Option (List Value)
unfolding all_hashable unique sorted_values has_value keep
value_difference xs ys =
    if all_hashable xs && all_hashable ys
    then sorted_values (keep (λ v. not (has_value v ys)) (unique xs))
    else none
