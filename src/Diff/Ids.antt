-- ===== src/Diff/Ids.antt =====
-- The ids of the changes: they are distinct, and each is an ordinal within its kind and operation.
use mathlib.Core.Option
use text.Mathlib.TextLemmas.{append_cancel_left}
use api_verity_lab.Common.{
  ℕ, zero, suc, ◌+◌, ◌≤◌, String, ◌<>◌, true, some, List, [], ◌∷◌, ◌++◌, ◌≡◌, ◌≢◌, refl, sym, ap,
  ap₂, ◌∙◌, subst, arith, ◌==◌, ==_iff, ==_refl, text_ord, if◌then◌else◌, Bool-cases, inl, inr, All,
}
use api_verity_lab.Common.Text.{upper, print, is_empty}
use api_verity_lab.Common.Text.Digits.{print_injective}
use api_verity_lab.Common.Text.Dashes.{dashless, dash_splits}
use api_verity_lab.Diff.Kind.{ChangeKind, value, operation_added}
use api_verity_lab.Diff.Change.{
  Call, Event, add, raise_type_error, Change, Engine, fresh, take_text, counter, set_counter,
  operation_hash, scope_of, change_id, add_change, perform,
}

value-dashless : (k : ChangeKind) → dashless (upper (value k)) ≡ true
unfolding dashless upper value
value-dashless operation_added = refl
value-dashless _ = refl

take_text-dashless : (n : ℕ) (s : String) → dashless s ≡ true → dashless (take_text n s) ≡ true
unfolding dashless take_text
take_text-dashless zero s h = refl
take_text-dashless (suc n) String.[] h = refl
take_text-dashless (suc n) (String.◌∷◌ c s) h = ground (arith, take_text-dashless n s)

pub counter-set_counter :
    (s scope : String) (n : ℕ) (counters : List (String × ℕ))
    → counter s (set_counter scope n counters) ≡ (if scope == s then n else counter s counters)
unfolding counter set_counter
counter-set_counter s scope n [] = refl
counter-set_counter s scope n ((t, m) ∷ rest) =
    ground (arith, counter-set_counter s scope n rest, ==_iff t scope, ==_iff t s, ==_iff scope s)

module _ (sha256 : String → String) (hexadecimal : (s : String) → dashless (sha256 s) ≡ true) where
  operation_hash-dashless : (k : String) → dashless (operation_hash sha256 k) ≡ true
  unfolding operation_hash dashless
  operation_hash-dashless k = elim (Bool-cases (is_empty k)) [
    | inl e ↦ rw e refl
    | inr e ↦ rw e (take_text-dashless 8 (sha256 k) (hexadecimal k))
  ]

  -- An id determines its scope and its ordinal.
  change_id_injective :
      (c d : Call) (m n : ℕ)
      → change_id sha256 c m ≡ change_id sha256 d n
      → (scope_of sha256 c ≡ scope_of sha256 d) × (m ≡ n)
  unfolding change_id scope_of
  change_id_injective c d m n e =
      let (kinds, rest) =
        dash_splits (upper (value c.kind)) (upper (value d.kind)) _ _ (value-dashless c.kind)
          (value-dashless d.kind) (append_cancel_left "CHG-" _ _ e) in
      let (hashes, numbers) =
        dash_splits (operation_hash sha256 c.operation_key) (operation_hash sha256 d.operation_key)
          (print m) (print n) (operation_hash-dashless c.operation_key)
          (operation_hash-dashless d.operation_key) rest in
      (ap₂ (λ (k h : String). k <> ":" <> h) kinds hashes, print_injective m n numbers)

-- No two of the texts are equal.
abbrev pub AllDistinct : List String → Type 0
AllDistinct [] = Unit
AllDistinct (s ∷ rest) = All (λ t. s ≢ t) rest × AllDistinct rest

All-snoc :
    {A : Type 0} (P : A → Type 0) (xs : List A) (x : A) → All P xs → P x → All P (xs ++ x ∷ [])
All-snoc P [] x h p = (p, tt)
All-snoc P (y ∷ ys) x h p = (h.0, All-snoc P ys x h.1 p)

AllDistinct-snoc :
    (xs : List String) (x : String)
    → AllDistinct xs
    → All (λ s. s ≢ x) xs
    → AllDistinct (xs ++ x ∷ [])
AllDistinct-snoc [] x d h = (tt, tt)
AllDistinct-snoc (y ∷ ys) x d h = (All-snoc _ ys x d.0 h.0, AllDistinct-snoc ys x d.1 h.1)

abbrev pub ids : List Change → List String
ids [] = []
ids (ch ∷ rest) = ch.id ∷ ids rest

ids-snoc : (xs : List Change) (x : Change) → ids (xs ++ x ∷ []) ≡ ids xs ++ x.id ∷ []
ids-snoc [] x = refl
ids-snoc (y ∷ ys) x = ap (λ l. y.id ∷ l) (ids-snoc ys x)

module _ (sha256 : String → String) (hexadecimal : (s : String) → dashless (sha256 s) ≡ true) where
  -- The change has been given its id, and its scope's counter has reached its ordinal.
  abbrev Counted : List (String × ℕ) → Change → Type 0
  Counted counters ch =
      (n : ℕ) × (ch.id ≡ change_id sha256 ch.call n)
      × (n ≤ counter (scope_of sha256 ch.call) counters)

  record Inv (e : Engine) : Type 0 where
    counted : All (Counted e.counters) e.changes
    distinct : AllDistinct (ids e.changes)

  module _ (c : Call) (counters : List (String × ℕ)) where
    abbrev scope : String
    scope = scope_of sha256 c

    abbrev next : ℕ
    next = counter scope counters + 1

    Counted-step :
        (ch : Change) → Counted counters ch → Counted (set_counter scope next counters) ch
    Counted-step ch (n, named, reached) = (
      n,
      named,
      ground (
        arith,
        counter-set_counter (scope_of sha256 ch.call) scope next counters,
        ==_iff scope (scope_of sha256 ch.call),
      ),
    )

    All-Counted-step :
        (xs : List Change)
        → All (Counted counters) xs
        → All (Counted (set_counter scope next counters)) xs
    All-Counted-step [] h = tt
    All-Counted-step (x ∷ xs) h = (Counted-step x h.0, All-Counted-step xs h.1)

    new_id :
        (xs : List Change)
        → All (Counted counters) xs
        → All (λ s. s ≢ change_id sha256 c next) (ids xs)
    new_id [] h = tt
    new_id (x ∷ xs) ((n, named, reached), rest) = (
      λ e.
          let (scopes, ordinals) =
            change_id_injective sha256 hexadecimal x.call c n next (sym named ∙ e) in
          absurd (omega (arith, subst (λ s. n ≤ counter s counters) scopes reached)),
      new_id xs rest,
    )

  reaches :
      (c : Call) (counters : List (String × ℕ))
      → next c counters
        ≤ counter (scope c counters) (set_counter (scope c counters) (next c counters) counters)
  reaches c counters = ground (
    arith,
    counter-set_counter (scope c counters) (scope c counters) (next c counters) counters,
    ==_refl (scope c counters),
  )

  add_change-Inv : (e : Engine) (c : Call) → Inv e → Inv (add_change sha256 e c)
  unfolding add_change
  add_change-Inv e c inv = record {
    counted =
        All-snoc _ e.changes _ (All-Counted-step c e.counters e.changes inv.counted)
          (next c e.counters, refl, reaches c e.counters);
    distinct = rw ids-snoc (
        AllDistinct-snoc (ids e.changes) _ inv.distinct
          (new_id c e.counters e.changes inv.counted));
  }

  perform-Inv :
      (e e' : Engine) (events : List Event) → Inv e → perform sha256 e events ≡ some e' → Inv e'
  unfolding perform
  perform-Inv e e' [] inv h = subst Inv (Option.some-injective e e' h) inv
  perform-Inv e e' (raise_type_error ∷ rest) inv h = cc
  perform-Inv e e' (add c ∷ rest) inv h =
      perform-Inv (add_change sha256 e c) e' rest (add_change-Inv e c inv) h

  -- Whatever calls of `_add` a run makes, no two of its changes have the same id: the digests only
  -- have to be free of dashes.
  pub perform-AllDistinct :
      (events : List Event) (e : Engine)
      → perform sha256 fresh events ≡ some e
      → AllDistinct (ids e.changes)
  perform-AllDistinct events e h =
      (perform-Inv fresh e events (record { counted = tt; distinct = tt }) h).distinct
