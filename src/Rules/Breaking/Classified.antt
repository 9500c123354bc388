-- ===== src/Rules/Breaking/Classified.antt =====
-- When `BreakingEngine.evaluate` (apiverity/rules/breaking.py) raises, and how many findings it gives.
use api_verity_lab.Common.{
  String, Bool, true, Option, none, some, is_some, List, [], ◌∷◌, ◌++◌, ◌≡◌, refl, arith, text_ord,
  pair_ord, get, Option-cases, inl, inr, length, length-append, ◌≤◌, ap, not, any,
}
use api_verity_lab.Model.Finding.{Severity, Finding}
use api_verity_lab.Diff.Change.{Change}
use api_verity_lab.Rules.Catalog.{catalog}
use api_verity_lab.Rules.Breaking.{
  rule_of, severity_for, finding_of, judged, cannot_hash, evaluate_change, append_found,
  evaluate_changes,
}
use api_verity_lab.Rules.Breaking.Known.{Listed, known, rule_of-known}

severity_for-some :
    (overrides : List (String × Severity)) (rule : String)
    → Listed rule
    → (s : Severity) × (severity_for overrides rule ≡ some s)
unfolding severity_for
severity_for-some overrides rule listed = elim (Option-cases (get rule catalog)) [
  | inl e ↦ absurd (ground (arith, e, listed))
  | inr (s, e) ↦ elim (Option-cases (get rule overrides)) [
    | inl f ↦ (s, ground (arith, e, f))
    | inr (t, f) ↦ (t, ground (arith, e, f))
  ]
]

-- set(after) - set(before) raises on the change
abbrev pub is_unhashable : Change → Bool
is_unhashable c = cannot_hash c.kind c.old_value c.new_value

judged-some :
    (overrides : List (String × Severity)) (c : Change) (rule : Option String)
    → known rule ≡ true
    → (found : List Finding) × (judged overrides c rule ≡ some found) × (length found ≤ 1)
unfolding judged known
judged-some overrides c none listed = ([], refl, omega arith)
judged-some overrides c (some rule) listed =
    let (s, f) = severity_for-some overrides rule listed in
    (finding_of c rule s ∷ [], rw (f, judged) refl, omega arith)

evaluate_change-some :
    (overrides : List (String × Severity)) (c : Change)
    → (is_some (evaluate_change overrides c) ≡ not (is_unhashable c))
      × ((found : List Finding) → evaluate_change overrides c ≡ some found → length found ≤ 1)
unfolding evaluate_change
evaluate_change-some overrides c =
    let (found, e, short) = judged-some overrides c (rule_of c) (rule_of-known c) in
    (ground (arith, e), λ other h. ground (arith, e, h, short, ap (length {A = Finding})))

-- Findings for a list of changes are those of the first and those of the rest.
pub evaluate_changes-cons :
    (overrides : List (String × Severity)) (c : Change) (rest : List Change) (found : List Finding)
    → evaluate_changes overrides (c ∷ rest) ≡ some found
    → (first : List Finding) × (others : List Finding) × (found ≡ first ++ others)
      × (evaluate_change overrides c ≡ some first)
      × (evaluate_changes overrides rest ≡ some others)
unfolding evaluate_changes append_found
evaluate_changes-cons overrides c rest found h = elim (Option-cases (evaluate_change overrides c)) [
  | inl e ↦ absurd (ground (arith, e, h))
  | inr (first, e) ↦ elim (Option-cases (evaluate_changes overrides rest)) [
    | inl f ↦ absurd (ground (arith, e, f, h))
    | inr (others, f) ↦ (first, others, ground (arith, e, f, h), e, f)
  ]
]

-- Whatever the changes are and however severities are overridden, the rules raise just when a change
-- of dependentRequired holds a member without a hash: no rule is missing in the catalog. When
-- they do not raise, they give at most one finding for each change.
pub evaluate_changes-some :
    (overrides : List (String × Severity)) (changes : List Change)
    → (is_some (evaluate_changes overrides changes) ≡ not (any is_unhashable changes))
      × ((found : List Finding)
          → evaluate_changes overrides changes ≡ some found
          → length found ≤ length changes)
unfolding evaluate_changes append_found any
evaluate_changes-some overrides [] = (refl, λ found h. ground (arith, h, ap (length {A = Finding})))
evaluate_changes-some overrides (c ∷ rest) =
    let (one, short) = evaluate_change-some overrides c in
    let (more, shorter) = evaluate_changes-some overrides rest in
    (
      ground (arith, one, more),
      λ found h.
          let (first, others, e, f, g) = evaluate_changes-cons overrides c rest found h in
          rw e (omega (arith, short first f, shorter others g, length-append first others)),
    )
