-- ===== src/Rules/Semver/Advice.antt =====
-- `suggest_bump` and `SemverPolicy.evaluate` of apiverity/rules/semver.py agree.
use api_verity_lab.Common.{
  String, Bool, true, false, not, none, some, List, [], ◌∷◌, ◌≡◌, refl, arith, any, keep, map,
  sorted_set, contains, contains-sorted_set, ==_refl, text_ord, ◌∙◌, sym, Option-cases, inl, inr,
  ◌≢◌,
}
use api_verity_lab.Model.Finding.{Severity, error, warn, is_severity, Finding}
use api_verity_lab.Diff.Change.{Change}
use api_verity_lab.Rules.Semver.{
  VersionType, Bump, major, patch, nothing, has_severity, is_nil, rules_of, satisfies,
  declared_satisfies, advice, demanded, suggest_bump, evaluate,
}
use api_verity_lab.Rules.Semver.Silent.{Acceptable, evaluate-Acceptable}

sorted_set-is_nil : (xs : List String) → is_nil (sorted_set xs) ≡ is_nil xs
unfolding contains
sorted_set-is_nil [] = unfold sorted_set in refl
sorted_set-is_nil (x ∷ xs) = ground (arith, contains-sorted_set x (x ∷ xs), ==_refl x)

kept-is_nil :
    (s : Severity) (fs : List Finding)
    → is_nil (map (λ f. f.rule_id) (keep (λ f. is_severity f.severity s) fs))
      ≡ not (has_severity s fs)
unfolding keep any
kept-is_nil s [] = refl
kept-is_nil s (f ∷ rest) = ground (arith, kept-is_nil s rest)

rules_of-is_nil :
    (s : Severity) (findings : List Finding)
    → is_nil (rules_of s findings) ≡ not (has_severity s findings)
unfolding rules_of
rules_of-is_nil s findings = sorted_set-is_nil _ ∙ kept-is_nil s findings

no_severity :
    (s : Severity) (findings : List Finding)
    → is_nil findings ≡ true
    → has_severity s findings ≡ false
unfolding any
no_severity s [] h = refl
no_severity s (f ∷ rest) h = ground arith

demanded-none :
    (findings : List Finding) (changes : List Change) (require_minor : Bool)
    → demanded findings changes require_minor ≡ none
    → (is_nil findings ≡ true) × (is_nil changes ≡ true)
unfolding demanded
demanded-none findings changes require_minor e = (ground arith, ground arith)

-- what a recommended bump of `kind` says of the findings
record Asked (findings : List Finding) (require_minor : Bool) (kind : Bump) : Type 0 where
  something : kind ≢ nothing
  breaking_is_major : has_severity error findings ≡ true → kind ≡ major
  risky_is_more : require_minor ≡ true → has_severity warn findings ≡ true → kind ≢ patch

demanded-some :
    (findings : List Finding) (changes : List Change) (require_minor : Bool) (kind : Bump)
    (reasons : List String)
    → demanded findings changes require_minor ≡ some (kind, reasons)
    → Asked findings require_minor kind
unfolding demanded
demanded-some findings changes require_minor kind reasons e = record {
  something = λ h. ground (arith, e, h);
  breaking_is_major = λ b. ground (arith, e, b, rules_of-is_nil error findings);
  risky_is_more = λ r w h. ground (arith, e, h, r, w, rules_of-is_nil warn findings);
}

module _ {V : Type 0} (version : VersionType V) (old_version new_version : String)
    (require_minor : Bool) (findings : List Finding) (changes : List Change) (old new : V)
    (read_old : version.parse old_version ≡ some old)
    (read_new : version.parse new_version ≡ some new) where
  advice-satisfied :
      (kind : Bump) (reasons : List String)
      → (advice version old_version (some new_version) kind reasons).satisfied
        ≡ satisfies version old new kind
  unfolding advice declared_satisfies
  advice-satisfied kind reasons = rw (read_old, advice, read_new, declared_satisfies) refl

  module _ (not_decreased : version.less new old ≡ false)
      (ordered : version.less old new ≡ false
        → version.less new old ≡ false
        → (version.major old ≡ version.major new) × (version.minor old ≡ version.minor new)) where
    acceptable :
        (kind : Bump)
        → satisfies version old new kind ≡ true
        → Asked findings require_minor kind
        → Acceptable version old_version new_version require_minor findings changes old new
    unfolding satisfies
    acceptable kind met asked = record {
      not_decreased = not_decreased;
      major_if_breaking = λ b. ground (arith, met, asked.breaking_is_major b);
      minor_if_risky = λ r w. ground (arith, met, asked.risky_is_more r w, asked.something);
      bump_if_material = λ m. ground (arith, met, asked.something, ordered);
    }

    satisfied-Acceptable :
        (suggest_bump version old_version findings changes require_minor
            (some new_version)).satisfied
          ≡ true
        → Acceptable version old_version new_version require_minor findings changes old new
    unfolding suggest_bump satisfies
    satisfied-Acceptable h = elim (Option-cases (demanded findings changes require_minor)) [
      | inl e ↦
          let (nothing_found, nothing_changed) = demanded-none findings changes require_minor e in
          record {
            not_decreased = not_decreased;
            major_if_breaking = λ b. ground (arith, b, no_severity error findings nothing_found);
            minor_if_risky = λ r w. ground (arith, w, no_severity warn findings nothing_found);
            bump_if_material = λ m. ground (arith, nothing_found, nothing_changed);
          }
      | inr ((kind, reasons), e) ↦
          let met : satisfies version old new kind ≡ true =
            sym (advice-satisfied kind reasons) ∙ ground (arith, h, e) in
          let asked = demanded-some findings changes require_minor kind reasons e in
          acceptable kind met asked
    ]

    -- Two versions that can be read, of which the new one is not less, and which meet the bump that
    -- `suggest_bump` recommends for the findings and the changes, pass `SemverPolicy.evaluate`. Of two
    -- versions neither of which is less, the major and the minor numbers have to agree.
    pub satisfied-evaluate :
        (suggest_bump version old_version findings changes require_minor
            (some new_version)).satisfied
          ≡ true
        → evaluate version old_version new_version require_minor findings changes ≡ []
    satisfied-evaluate h =
        (evaluate-Acceptable version old_version new_version require_minor findings changes old new
            read_old read_new).1
          (satisfied-Acceptable h)
