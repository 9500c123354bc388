-- ===== src/Rules/Semver/Silent.antt =====
-- When `SemverPolicy.evaluate` of apiverity/rules/semver.py reports nothing.
use api_verity_lab.Common.{
  String, Bool, true, false, not, ◌||◌, some, List, [], ◌≡◌, ◌↔◌, arith, ltb,
}
use api_verity_lab.Model.Finding.{error, warn, Finding}
use api_verity_lab.Diff.Change.{Change}
use api_verity_lab.Rules.Semver.{VersionType, has_severity, is_nil, transition, evaluate}

module _ {V : Type 0} (version : VersionType V) (old_version new_version : String)
    (require_minor : Bool) (findings : List Finding) (changes : List Change) where
  -- what the policy asks of two versions that it can read
  pub record Acceptable (old new : V) : Type 0 where
    pub not_decreased : version.less new old ≡ false
    pub major_if_breaking :
        has_severity error findings ≡ true → ltb (version.major old) (version.major new) ≡ true
    pub minor_if_risky :
        require_minor ≡ true
        → has_severity warn findings ≡ true
        → (ltb (version.minor old) (version.minor new)
            || ltb (version.major old) (version.major new))
          ≡ true
    pub bump_if_material :
        (not (is_nil findings) || not (is_nil changes)) ≡ true → version.less old new ≡ true

  transition-Acceptable :
      (old new : V)
      → transition version old_version new_version require_minor old new findings changes ≡ []
      → Acceptable old new
  unfolding transition
  transition-Acceptable old new h = record {
    not_decreased = ground arith;
    major_if_breaking = λ b. ground arith;
    minor_if_risky = λ r w. ground arith;
    bump_if_material = λ m. ground arith;
  }

  Acceptable-transition :
      (old new : V)
      → Acceptable old new
      → transition version old_version new_version require_minor old new findings changes ≡ []
  unfolding transition
  Acceptable-transition old new a =
      ground (arith, a.not_decreased, a.major_if_breaking, a.minor_if_risky, a.bump_if_material)

  -- For two versions that can be read, the policy reports nothing exactly when the version did not
  -- decrease, a breaking finding came with a greater major number, a risky one (where the project
  -- asks for it) with a greater minor or major number, and any finding or change with a greater
  -- version.
  pub evaluate-Acceptable :
      (old new : V)
      → version.parse old_version ≡ some old
      → version.parse new_version ≡ some new
      → (evaluate version old_version new_version require_minor findings changes ≡ [])
        ↔ Acceptable old new
  unfolding evaluate
  evaluate-Acceptable old new read_old read_new =
      rw (read_old, read_new, evaluate)
        (transition-Acceptable old new, Acceptable-transition old new)
