-- ===== src/Rules/Semver.antt =====
-- apiverity/rules/semver.py: which version a set of changes asks for, and whether it got it.
pub mod Silent
pub mod Advice
use api_verity_lab.Common.{
  ℕ, ◌+◌, String, ◌<>◌, Bool, true, false, not, ◌&&◌, ◌||◌, Option, none, some, List, [], ◌∷◌, ◌++◌,
  map, ltb, ◌==◌, nat_ord, if◌then◌else◌, length, any, keep, sorted_set, text_ord,
}
use api_verity_lab.Common.Text.{is_empty, print, includes}
use api_verity_lab.Model.Repr.{repr_text}
use api_verity_lab.Model.Finding.{Severity, error, warn, is_severity, Finding, plain_finding}
use api_verity_lab.Diff.Kind.{value}
use api_verity_lab.Diff.Change.{Change}

-- `packaging.version.Version`: `parse` gives nothing where it raises `InvalidVersion`, `less` is `<`.
pub record VersionType (V : Type 0) : Type 0 where
  pub parse : String → Option V
  pub major : V → ℕ
  pub minor : V → ℕ
  pub micro : V → ℕ
  pub less : V → V → Bool
  pub shown : V → String

pub data Bump : Type 0 where
  major minor patch nothing : Bump

pub record VersionAdvice : Type 0 where
  pub required_bump : Bump
  pub suggested_version : Option String
  pub reasons : List String
  pub satisfied : Bool

abbrev pub has_severity : Severity → List Finding → Bool
has_severity s findings = any (λ f. is_severity f.severity s) findings

-- sorted({f.rule_id for f in findings if f.severity is s})
unfoldable pub rules_of : Severity → List Finding → List String
rules_of s findings =
    sorted_set (map (λ f. f.rule_id) (keep (λ f. is_severity f.severity s) findings))

abbrev pub is_nil {ℓ} : {A : Type ℓ} → List A → Bool
is_nil [] = true
is_nil (x ∷ xs) = false

unfoldable pub is_additive : List Change → Bool
is_additive changes = any (λ c. includes "_added" (value c.call.kind)) changes

warned : List String → List String
warned rules = map (λ rule. rule <> " (WARN)") rules

-- the bump that `suggest_bump` recommends and its reasons, where anything moved
unfoldable pub demanded :
    List Finding → List Change → (require_minor : Bool) → Option (Bump × List String)
unfolding rules_of is_additive warned
demanded findings changes require_minor =
    let breaking = rules_of error findings in
    let risky = rules_of warn findings in
    if not (is_nil breaking)
    then some (major, map (λ rule. rule <> " (ERROR)") breaking)
    else if not (is_nil risky) && require_minor
    then some (minor, warned risky)
    else if not (is_nil changes) || not (is_nil findings)
    then some (
      (if not (is_nil risky) || is_additive changes then minor else patch),
      (if not (is_nil risky)
          then warned risky
          else (print (length changes) <> " change(s) with no breaking finding") ∷ []),
    )
    else none

unfoldable pub semver_finding : String → Severity → String → Finding
semver_finding rule severity message = plain_finding rule severity message none

module _ {V : Type 0} (version : VersionType V) where
  unfoldable pub bump : V → Bump → String
  bump v major = print (version.major v + 1) <> ".0.0"
  bump v minor = print (version.major v) <> "." <> print (version.minor v + 1) <> ".0"
  bump v patch =
      print (version.major v)
      <> "."
      <> print (version.minor v)
      <> "."
      <> print (version.micro v + 1)
  bump v nothing = version.shown v

  unfoldable pub satisfies : V → V → Bump → Bool
  satisfies old declared major = ltb (version.major old) (version.major declared)
  satisfies old declared minor =
      ltb (version.major old) (version.major declared)
      || ltb (version.minor old) (version.minor declared)
  satisfies old declared patch = version.less old declared
  satisfies old declared nothing = true

  declared_satisfies : V → Option String → Bump → Bool
  unfolding satisfies
  declared_satisfies old none kind = false
  declared_satisfies old (some text) kind = elim (version.parse text) [
    | none ↦ false
    | some declared ↦ satisfies old declared kind
  ]

  advice : String → Option String → Bump → List String → VersionAdvice
  unfolding bump declared_satisfies
  advice current declared kind reasons = elim (version.parse current) [
    | none ↦ record {
      required_bump = kind;
      suggested_version = none;
      reasons = reasons ++ ("current version " <> repr_text current <> " is unparseable") ∷ [];
      satisfied = false;
    }
    | some old ↦ record {
      required_bump = kind;
      suggested_version = some (bump old kind);
      reasons = reasons;
      satisfied = declared_satisfies old declared kind;
    }
  ]

  unfoldable pub suggest_bump :
      String → List Finding → List Change → (require_minor : Bool) → Option String → VersionAdvice
  unfolding demanded advice
  suggest_bump current findings changes require_minor declared =
      elim (demanded findings changes require_minor) [
        | some (kind, reasons) ↦ advice current declared kind reasons
        | none ↦ record {
          required_bump = nothing;
          suggested_version = if is_empty current then none else some current;
          reasons = [];
          satisfied = true;
        }
      ]

  unparseable : String → String → Finding
  unfolding semver_finding
  unparseable old new =
      semver_finding "SEMVER-UNPARSEABLE" warn
        ("cannot parse versions '" <> old <> "' -> '" <> new <> "' for semver policy")

  transition : String → String → Bool → V → V → List Finding → List Change → List Finding
  unfolding semver_finding
  transition old_version new_version require_minor old new findings changes =
      let major_bump = ltb (version.major old) (version.major new) in
      let minor_bump = ltb (version.minor old) (version.minor new) in
      if version.less new old
      then semver_finding "SEMVER-DECREASE" error (
          "version decreased '" <> old_version <> "' -> '" <> new_version
          <> "'; published versions must never decrease")
        ∷ []
      else if has_severity error findings && not major_bump
      then semver_finding "SEMVER-MAJOR-REQUIRED" error (
          "breaking changes detected but version only moved '" <> old_version <> "' -> '"
          <> new_version <> "'; a MAJOR bump is required")
        ∷ []
      else if require_minor && has_severity warn findings && not (minor_bump || major_bump)
      then semver_finding "SEMVER-MINOR-REQUIRED" warn (
          "risky (WARN) changes detected without a MINOR bump ('" <> old_version <> "' -> '"
          <> new_version <> "')")
        ∷ []
      else if (not (is_nil findings) || not (is_nil changes)) && not (version.less old new)
      then semver_finding "SEMVER-NO-BUMP" warn
          ("material contract changes detected but the version stayed at '" <> new_version <> "'")
        ∷ []
      else []

  -- `SemverPolicy(old, new, require_minor_for_warnings).evaluate`
  unfoldable pub evaluate : String → String → Bool → List Finding → List Change → List Finding
  unfolding unparseable transition
  evaluate old_version new_version require_minor findings changes =
      elim (version.parse old_version) [
        | none ↦ unparseable old_version new_version ∷ []
        | some old ↦ elim (version.parse new_version) [
          | none ↦ unparseable old_version new_version ∷ []
          | some new ↦ transition old_version new_version require_minor old new findings changes
        ]
      ]
