-- ===== src/Common/Dicts.antt =====
-- Python's dicts as association lists.
use mathlib.Core.Path.{◌≡◌, refl}
use mathlib.Core.Option.{Option, none, some}
use mathlib.Core.List.{List, [], ◌∷◌}
use native.Mathlib.Omega.{arith}
use api_verity_lab.Common.Tests.{if◌then◌else◌, is_some}
use api_verity_lab.Common.Order.{Ord, ◌==◌, ==_iff}
use api_verity_lab.Common.Sets.{contains}

module _ {ℓ κ} {K : Type ℓ} {V : Type κ} where
  -- list(d)
  unfoldable pub keys : List (K × V) → List K
  keys [] = []
  keys ((k, v) ∷ rest) = k ∷ keys rest

module _ {ℓ κ} {K : Type ℓ} {V : Type κ} ⦃o : Ord K⦄ where
  -- d.get(k)
  unfoldable pub get : K → List (K × V) → Option V
  get k [] = none
  get k ((j, v) ∷ rest) = if j == k then some v else get k rest

  -- d[k] = v
  unfoldable pub put : K → V → List (K × V) → List (K × V)
  put k v [] = (k, v) ∷ []
  put k v ((j, w) ∷ rest) = if j == k then (k, v) ∷ rest else (j, w) ∷ put k v rest

  unfoldable pub put_all : List (K × V) → List (K × V) → List (K × V)
  unfolding put
  put_all d [] = d
  put_all d ((k, v) ∷ rest) = put_all (put k v d) rest

  -- {k: v for k, v in pairs}
  unfoldable pub dict_of : List (K × V) → List (K × V)
  unfolding put_all
  dict_of pairs = put_all [] pairs

  pub get-put :
      (k j : K) (v : V) (d : List (K × V))
      → get k (put j v d) ≡ (if j == k then some v else get k d)
  unfolding get put
  get-put k j v [] = refl
  get-put k j v ((i, w) ∷ rest) =
      ground (arith, get-put k j v rest, ==_iff i j, ==_iff i k, ==_iff j k)

  pub contains-keys : (k : K) (d : List (K × V)) → contains k (keys d) ≡ is_some (get k d)
  unfolding contains keys get
  contains-keys k [] = refl
  contains-keys k ((j, v) ∷ rest) = ground (arith, contains-keys k rest, ==_iff k j, ==_iff j k)

  -- no key stands twice
  abbrev pub IsDict : List (K × V) → Type κ
  IsDict [] = Unit
  IsDict ((k, v) ∷ rest) = (get k rest ≡ none) × IsDict rest

  put-IsDict : (k : K) (v : V) (d : List (K × V)) → IsDict d → IsDict (put k v d)
  unfolding get put
  put-IsDict k v [] h = (refl, tt)
  put-IsDict k v ((j, w) ∷ rest) h =
      ground (arith, put-IsDict k v rest h.1, get-put j k v rest, h.0, ==_iff j k, ==_iff k j)

  put_all-IsDict : (d pairs : List (K × V)) → IsDict d → IsDict (put_all d pairs)
  unfolding put_all
  put_all-IsDict d [] h = h
  put_all-IsDict d ((k, v) ∷ rest) h = put_all-IsDict (put k v d) rest (put-IsDict k v d h)

  pub dict_of-IsDict : (pairs : List (K × V)) → IsDict (dict_of pairs)
  unfolding dict_of
  dict_of-IsDict pairs = put_all-IsDict [] pairs tt
