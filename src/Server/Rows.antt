-- ===== src/Server/Rows.antt =====
-- Queries of apiverity/server/store.py over the rows of a table, which stand in the order of their
-- ids: AUTOINCREMENT numbers them as they are inserted. `Store.purge_older_than`, which deletes old
-- runs, is not modelled: the rows are those between two purges.
use api_verity_lab.Common.{
  Bool, true, Option, none, some, List, [], ◌∷◌, ◌++◌, ◌≡◌, refl, arith, keep, if◌then◌else◌,
}

module _ {ℓ} {A : Type ℓ} where
  -- SELECT * FROM rows WHERE test ORDER BY id DESC LIMIT 1
  unfoldable pub last_where : (A → Bool) → List A → Option A
  last_where test [] = none
  last_where test (x ∷ xs) = elim (last_where test xs) [
    | none ↦ if test x then some x else none
    | some y ↦ some y
  ]

  -- SELECT * FROM rows WHERE test ORDER BY id LIMIT 1
  unfoldable pub first_where : (A → Bool) → List A → Option A
  first_where test [] = none
  first_where test (x ∷ xs) = let rest = first_where test xs in if test x then some x else rest

  -- UPDATE rows SET ... WHERE test
  unfoldable pub update_where : (A → Bool) → (A → A) → List A → List A
  update_where test change [] = []
  update_where test change (x ∷ xs) = (if test x then change x else x) ∷ update_where test change xs

  pub last_where-snoc :
      (test : A → Bool) (xs : List A) (x : A)
      → last_where test (xs ++ x ∷ []) ≡ (if test x then some x else last_where test xs)
  unfolding last_where
  last_where-snoc test [] x = refl
  last_where-snoc test (y ∷ xs) x = ground (arith, last_where-snoc test xs x)

  pub first_where-snoc :
      (test : A → Bool) (xs : List A) (x : A)
      → first_where test xs ≡ none
      → test x ≡ true
      → first_where test (xs ++ x ∷ []) ≡ some x
  unfolding first_where
  first_where-snoc test [] x h k = rw k refl
  first_where-snoc test (y ∷ xs) x h k = ground (arith, h, first_where-snoc test xs x, k)

  pub keep-snoc :
      (test : A → Bool) (xs : List A) (x : A)
      → keep test (xs ++ x ∷ []) ≡ (if test x then keep test xs ++ x ∷ [] else keep test xs)
  unfolding keep
  keep-snoc test [] x = refl
  keep-snoc test (y ∷ xs) x = ground (arith, keep-snoc test xs x)
