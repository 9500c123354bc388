-- ===== src/Rules/Budget/Pointers.antt =====
-- The two pointers of `busiest_window` (apiverity/rules/budget.py) over instants in order.
use mathlib.Core.List.{append-nil}
use api_verity_lab.Common.{
  append_one, All-snoc, ℕ, ◌+◌, ◌-◌, ◌≤◌, Bool, true, not, ◌&&◌, List, [], ◌∷◌, ◌++◌, ◌≡◌, refl,
  sym, ap, ◌∙◌, subst, arith, ltb, leb, nat_ord, keep, length, length-append, All, Bool-cases, inl,
  inr,
}
use api_verity_lab.Rules.Budget.{Window, first_of, drop_old, advance, advance_all}
use api_verity_lab.Rules.Budget.Ascending.{
  IsSorted, keep-append, keep-keep, keep-shorter, All-last, All-keep, All-kept, IsSorted-snoc,
  IsSorted-keep, keep_twice-shorter,
}

-- the instants of the window that begins at `t`
abbrev pub is_inside : ℕ → ℕ → ℕ → Bool
is_inside window t x = leb t x && leb x (t + window)

unfoldable pub calls_inside : ℕ → ℕ → List ℕ → ℕ
unfolding keep
calls_inside window t xs = length (keep (is_inside window t) xs)

-- at most `window` before `m`
abbrev is_near : ℕ → ℕ → ℕ → Bool
is_near window m x = not (ltb window (m - x))

module _ (window m : ℕ) where
  keep_near :
      (x : ℕ) (xs : List ℕ)
      → is_near window m x ≡ true
      → All (λ y. x ≤ y) xs
      → keep (is_near window m) xs ≡ xs
  unfolding keep
  keep_near x [] near above = refl
  keep_near x (y ∷ ys) near above = ground (arith, keep_near x ys near above.1, above.0)

  drop_old-keep : (xs : List ℕ) → IsSorted xs → drop_old window m xs ≡ keep (is_near window m) xs
  unfolding drop_old keep
  drop_old-keep [] h = refl
  drop_old-keep (x ∷ xs) h =
      ground
        (arith, drop_old-keep xs h.1, λ (near : is_near window m x ≡ true). keep_near x xs near h.0)

-- all of an ascending list lies in the window of its first member, if all of it is near `m`
All-inside :
    (window m x : ℕ) (xs : List ℕ)
    → is_near window m x ≡ true
    → All (λ y. x ≤ y) xs
    → All (λ y. y ≤ m) xs
    → keep (is_inside window x) xs ≡ xs
unfolding keep
All-inside window m x [] near above below = refl
All-inside window m x (y ∷ ys) near above below =
    ground (arith, All-inside window m x ys near above.1 below.1, above.0, below.0)

module _ (window : ℕ) where
  calls_inside-append :
      (t : ℕ) (xs ys : List ℕ) → calls_inside window t xs ≤ calls_inside window t (xs ++ ys)
  unfolding calls_inside
  calls_inside-append t xs ys = omega (
    arith,
    ap length (keep-append (is_inside window t) xs ys),
    length-append (keep (is_inside window t) xs) (keep (is_inside window t) ys),
  )

  pub record Inv (seen : List ℕ) (w : Window) : Type 0 where
    pub ascending : IsSorted seen
    pub last : ℕ
    pub held_near : w.held ≡ keep (is_near window last) seen
    pub last_below : (m : ℕ) → All (λ y. y ≤ m) seen → last ≤ m
    pub bound : (t : ℕ) → calls_inside window t seen ≤ w.best
    pub reached : w.best ≤ calls_inside window w.best_at seen

  module _ (seen : List ℕ) (w : Window) (m : ℕ) (inv : Inv seen w)
      (below : All (λ y. y ≤ m) seen) where
    held-next : drop_old window m (w.held ++ m ∷ []) ≡ keep (is_near window m) (seen ++ m ∷ [])
    held-next =
        let kept : All (λ y. y ≤ m) w.held =
          subst (All (λ y. y ≤ m)) (sym inv.held_near)
            (All-keep (λ y. y ≤ m) (is_near window inv.last) seen below) in
        let up : IsSorted w.held =
          subst IsSorted (sym inv.held_near)
            (IsSorted-keep (is_near window inv.last) seen inv.ascending) in
        drop_old-keep window m (w.held ++ m ∷ []) (IsSorted-snoc w.held m up kept)
        ∙ keep-append (is_near window m) w.held (m ∷ [])
        ∙ ap (λ xs. keep (is_near window m) xs ++ keep (is_near window m) (m ∷ [])) inv.held_near
        ∙ ap (λ xs. xs ++ keep (is_near window m) (m ∷ []))
            (keep-keep (is_near window m) (is_near window inv.last) seen
              (λ x near. ground (arith, near, inv.last_below m below)))
        ∙ sym (keep-append (is_near window m) seen (m ∷ []))

    held : List ℕ
    held = drop_old window m (w.held ++ m ∷ [])

    best-next : (w.best ≤ (advance window m w).best) × (length held ≤ (advance window m w).best)
    unfolding advance held
    best-next = ground arith

    bound-next : (t : ℕ) → calls_inside window t (seen ++ m ∷ []) ≤ (advance window m w).best
    unfolding calls_inside held keep
    bound-next t = elim (Bool-cases (is_inside window t m)) [
      | inl within ↦
          let fewer =
            keep-shorter (is_inside window t) (is_near window m) (seen ++ m ∷ [])
              (λ x inside. ground (arith, inside, within)) in
          let same : length (drop_old window m (w.held ++ m ∷ []))
              ≡ length (keep (is_near window m) (seen ++ m ∷ [])) =
            ap length held-next in
          omega (arith, fewer, same, best-next.1)
      | inr without ↦
          let apart = keep-append (is_inside window t) seen (m ∷ []) in
          let sizes : length (keep (is_inside window t) (seen ++ m ∷ []))
              ≡ length (keep (is_inside window t) seen) =
            ap length apart
            ∙ length-append (keep (is_inside window t) seen) _
            ∙ ground (arith, without) in
          omega (arith, sizes, inv.bound t, best-next.0)
    ]

    advance_held : (advance window m w).held ≡ drop_old window m (w.held ++ m ∷ [])
    unfolding advance
    advance_held = ground arith

    held_inside :
        (xs : List ℕ)
        → IsSorted xs
        → All (λ y. y ≤ m) xs
        → All (λ y. is_near window m y ≡ true) xs
        → keep (is_inside window (first_of xs m)) xs ≡ xs
    unfolding keep
    held_inside [] up under near = refl
    held_inside (x ∷ xs) up under near =
        ground (arith, All-inside window m x xs near.0 up.0 under.1, under.0, near.0)

    kept_inside : keep (is_inside window (first_of held m)) held ≡ held
    unfolding held
    kept_inside =
        let all = seen ++ m ∷ [] in
        let under : All (λ y. y ≤ m) all = All-snoc (λ y. y ≤ m) seen m below (omega arith) in
        let up = IsSorted-snoc seen m inv.ascending below in
        held_inside (drop_old window m (w.held ++ m ∷ []))
          (subst IsSorted (sym held-next) (IsSorted-keep (is_near window m) all up))
          (subst (All (λ y. y ≤ m)) (sym held-next)
            (All-keep (λ y. y ≤ m) (is_near window m) all under))
          (subst (All (λ y. is_near window m y ≡ true)) (sym held-next)
            (All-kept (is_near window m) all))

    held_reached : length held ≤ calls_inside window (first_of held m) (seen ++ m ∷ [])
    unfolding calls_inside
    held_reached =
        let s = is_inside window (first_of held m) in
        let same : length held ≡ length (keep s (keep (is_near window m) (seen ++ m ∷ []))) =
          ap length (sym kept_inside ∙ ap (keep s) (unfold held in held-next)) in
        omega (arith, same, keep_twice-shorter s (is_near window m) (seen ++ m ∷ []))

    reached-next :
        (advance window m w).best
        ≤ calls_inside window (advance window m w).best_at (seen ++ m ∷ [])
    unfolding advance
    reached-next = elim (Bool-cases (ltb w.best (length (drop_old window m (w.held ++ m ∷ []))))) [
      | inl more ↦ rw more (unfold held in held_reached)
      | inr same ↦ rw same (omega (arith, inv.reached, calls_inside-append w.best_at seen (m ∷ [])))
    ]

    advance-Inv : Inv (seen ++ m ∷ []) (advance window m w)
    advance-Inv = record {
      ascending = IsSorted-snoc seen m inv.ascending below;
      last = m;
      held_near = advance_held ∙ held-next;
      last_below = λ n under. All-last (λ y. y ≤ n) seen m under;
      bound = bound-next;
      reached = reached-next;
    }

  pub advance_all-Inv :
      (rest seen : List ℕ) (w : Window)
      → Inv seen w
      → IsSorted rest
      → All (λ m. All (λ y. y ≤ m) seen) rest
      → Inv (seen ++ rest) (advance_all window rest w)
  unfolding advance_all
  advance_all-Inv [] seen w inv up after = subst (λ xs. Inv xs w) (sym (append-nil seen)) inv
  advance_all-Inv (m ∷ rest) seen w inv up after =
      subst (λ xs. Inv xs (advance_all window rest (advance window m w))) (append_one seen m rest)
        (advance_all-Inv rest (seen ++ m ∷ []) (advance window m w)
          (advance-Inv seen w m inv after.0) up.1 (later rest after.1 up.0))
    where
      later :
          (ns : List ℕ)
          → All (λ n. All (λ y. y ≤ n) seen) ns
          → All (λ n. m ≤ n) ns
          → All (λ n. All (λ y. y ≤ n) (seen ++ m ∷ [])) ns
      later [] h g = tt
      later (n ∷ ns) h g = (All-snoc (λ y. y ≤ n) seen m h.0 g.0, later ns h.1 g.1)
