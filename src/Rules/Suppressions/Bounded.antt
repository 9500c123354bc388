-- ===== src/Rules/Suppressions/Bounded.antt =====
-- A suppression that is in force (apiverity/rules/suppressions.py) is justified and bounded.
use mathlib.Core.Path.{fun_ext}
use api_verity_lab.Common.{
  ℕ, ◌+◌, ◌≤◌, String, Bool, true, false, not, Option, some, List, [], ◌∷◌, ◌≡◌, refl, arith, All,
  Option-cases, Bool-cases, inl, inr, text_ord, option_ord, subst, keep, is_some, is_none, any, map,
  ap, ◌&&◌, ◌||◌, ◌==◌,
}
use api_verity_lab.Model.Finding.{Finding}
use api_verity_lab.Rules.Suppressions.{
  Suppression, is_blank, sentence_if, is_clean, matches, match_of, split, is_expired,
  expiry_problems, problems, sort_entries, apply_suppressions,
}

module _ (day_of : String → Option ℕ) (today max_days : ℕ) (require_approver : Bool) where
  -- Somebody owns the entry and says why, a second name stands where the project asks for one, and
  -- the entry ends on a day from today on and at most `max_days` away.
  pub record InForce (s : Suppression) : Type 0 where
    pub named : is_blank s.rule_id ≡ false
    pub owned : is_blank s.owner ≡ false
    pub explained : is_blank s.reason ≡ false
    pub approved : require_approver ≡ true → is_blank s.approved_by ≡ false
    pub ends :
        (text : String) × (day : ℕ) × (s.expires ≡ some text)
        × (day_of text ≡ some day)
        × (today ≤ day)
        × (day ≤ today + max_days)

  ends-InForce :
      (s : Suppression)
      → is_clean (expiry_problems day_of today max_days require_approver s.expires) ≡ true
      → is_expired day_of today s ≡ false
      → (text : String) × (day : ℕ) × (s.expires ≡ some text)
        × (day_of text ≡ some day)
        × (today ≤ day)
        × (day ≤ today + max_days)
  unfolding expiry_problems is_expired sentence_if
  ends-InForce s clean current = elim (Option-cases s.expires) [
    | inl e ↦ absurd (ground (arith, e, clean))
    | inr (text, e) ↦ elim (Option-cases (day_of text)) [
      | inl d ↦ absurd (ground (arith, e, d, clean))
      | inr (day, d) ↦ (text, day, e, d, ground (arith, e, d, current), ground (arith, e, d, clean))
    ]
  ]

  problems-InForce :
      (s : Suppression)
      → is_clean (problems day_of today max_days require_approver s) ≡ true
      → is_expired day_of today s ≡ false
      → InForce s
  unfolding problems sentence_if
  problems-InForce s clean current = record {
    named = ground arith;
    owned = ground arith;
    explained = ground arith;
    approved = λ r. ground arith;
    ends = ends-InForce s (ground arith) current;
  }

  sort_entries-InForce :
      (suppressions : List Suppression)
      → All InForce (sort_entries day_of today max_days require_approver suppressions).live
  unfolding sort_entries
  sort_entries-InForce [] = tt
  sort_entries-InForce (s ∷ rest) = ground (arith, sort_entries-InForce rest, problems-InForce s)

  match_of-InForce :
      (live : List Suppression) (f : Finding) (s : Suppression)
      → All InForce live
      → match_of live f ≡ some s
      → InForce s × (matches s f ≡ true)
  unfolding match_of
  match_of-InForce [] f s h e = ground arith
  match_of-InForce (t ∷ rest) f s h e = elim (Bool-cases (matches t f)) [
    | inl own ↦
        let first : t ≡ s = ground (arith, e, own) in
        (subst InForce first h.0, subst (λ x. matches x f ≡ true) first own)
    | inr other ↦ match_of-InForce rest f s h.1 (ground (arith, e, other))
  ]

  split-InForce :
      (live : List Suppression) (findings : List Finding)
      → All InForce live
      → All
          (λ (fs : Finding × Suppression). InForce fs.1 × (matches fs.1 fs.0 ≡ true))
          (split live findings).1
  unfolding split
  split-InForce live [] h = tt
  split-InForce live (f ∷ rest) h = elim (Option-cases (match_of live f)) [
    | inl e ↦ rw (e, split) (split-InForce live rest h)
    | inr (s, e) ↦ rw (e, split) (match_of-InForce live f s h e, split-InForce live rest h)
  ]

  -- No finding is silenced by an entry that is not justified and bounded: each suppressed finding
  -- stands with an entry for its rule and its operation that names an owner, a reason and, where the
  -- project asks for it, an approver, and that ends on a day from today on and at most `max_days` away.
  pub apply_suppressions-InForce :
      (findings : List Finding) (suppressions : List Suppression)
      → All
          (λ (fs : Finding × Suppression). InForce fs.1 × (matches fs.1 fs.0 ≡ true))
          (apply_suppressions day_of today max_days require_approver findings
            suppressions).suppressed
  unfolding apply_suppressions
  apply_suppressions-InForce findings suppressions =
      split-InForce _ findings (sort_entries-InForce suppressions)

is_silenced : List Suppression → Finding → Bool
is_silenced live f = is_some (match_of live f)

split-keep :
    (live : List Suppression) (findings : List Finding)
    → ((split live findings).0 ≡ keep (λ f. not (is_silenced live f)) findings)
      × (map (λ (fs : Finding × Suppression). fs.0) (split live findings).1
          ≡ keep (is_silenced live) findings)
unfolding split keep is_silenced
split-keep live [] = (refl, refl)
split-keep live (f ∷ rest) = elim (Option-cases (match_of live f)) [
  | inl e ↦ rw (e, split) (ap (λ fs. f ∷ fs) (split-keep live rest).0, (split-keep live rest).1)
  | inr (s, e) ↦
      rw (e, split) ((split-keep live rest).0, ap (λ fs. f ∷ fs) (split-keep live rest).1)
]

module _ (day_of : String → Option ℕ) (today max_days : ℕ) (require_approver : Bool) where
  -- The entry has no problem, has not ended, and is for the finding's rule and for its operation
  -- where it names one.
  abbrev pub silences : Finding → Suppression → Bool
  silences f s =
      is_clean (problems day_of today max_days require_approver s)
      && not (is_expired day_of today s)
      && s.rule_id == f.rule_id
      && (is_none s.operation_key || f.operation_key == s.operation_key)

  silenced_any :
      (suppressions : List Suppression) (f : Finding)
      → is_silenced (sort_entries day_of today max_days require_approver suppressions).live f
        ≡ any (silences f) suppressions
  unfolding sort_entries match_of is_silenced any matches
  silenced_any [] f = refl
  silenced_any (s ∷ rest) f = elim (Option-cases s.operation_key) [
    | inl e ↦ ground (arith, e, silenced_any rest f)
    | inr (operation, e) ↦ ground (arith, e, silenced_any rest f, ap (λ o. f.operation_key == o) e)
  ]

  -- `apply_suppressions` loses no finding and repeats none. The suppressed findings are those for which
  -- some entry, wherever it stands in the list, is clean, has not ended, and has the finding's rule
  -- and either no operation or the finding's; the active ones are all others; both in the order of
  -- the run.
  pub apply_suppressions-keep :
      (findings : List Finding) (suppressions : List Suppression)
      → let result =
          apply_suppressions day_of today max_days require_approver findings suppressions in
        (result.active ≡ keep (λ f. not (any (silences f) suppressions)) findings)
        × (map (λ (fs : Finding × Suppression). fs.0) result.suppressed
            ≡ keep (λ f. any (silences f) suppressions) findings)
  unfolding apply_suppressions
  apply_suppressions-keep findings suppressions =
      let live = (sort_entries day_of today max_days require_approver suppressions).live in
      let same : is_silenced live ≡ (λ f. any (silences f) suppressions) =
        fun_ext (silenced_any suppressions) in
      subst
        (λ test.
          ((split live findings).0 ≡ keep (λ f. not (test f)) findings)
          × (map (λ (fs : Finding × Suppression). fs.0) (split live findings).1
              ≡ keep test findings))
        same (split-keep live findings)
