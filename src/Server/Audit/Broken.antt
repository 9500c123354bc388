-- ===== src/Server/Audit/Broken.antt =====
-- Where the walk of apiverity/server/audit_export.py says that a chain broke.
use api_verity_lab.Common.{
  ℕ, String, true, false, Option, some, List, [], ◌∷◌, ◌++◌, ◌==◌, ◌≡◌, refl, sym, ap, ◌∙◌, ◌⊎◌,
  inl, inr, nat_ord, text_ord, length, arith, ==_iff, Bool-cases,
}
use api_verity_lab.Server.Audit.{AuditEvent, entry_basis, entry_hash, walk, verify_chain}
use mathlib.Core.Bool.{◌&&◌}
use api_verity_lab.Server.Audit.Chain.{IsLinked, walk-IsLinked}

module _ (digest : String → String) where
  -- The entry with that id is the first that does not continue the chain before it.
  abbrev pub BreaksAt : String → List AuditEvent → Option ℕ → Type 0
  BreaksAt previous entries found =
      (before : List AuditEvent) × (e : AuditEvent) × (after : List AuditEvent) × (entries
        ≡ before ++ e ∷ after)
      × (found ≡ some e.id)
      × IsLinked digest previous before
      × (¬ IsLinked digest previous (before ++ e ∷ []))

  breaks_here :
      (count : ℕ) (previous : String) (e : AuditEvent) (rest : List AuditEvent)
      → ¬ ((e.prev_hash ≡ previous) × (e.entry_hash ≡ digest (entry_basis e)))
      → BreaksAt previous (e ∷ rest) (walk digest count previous (e ∷ rest)).broken_at
  unfolding walk entry_hash
  breaks_here count previous e rest bad = (
    [],
    e,
    rest,
    refl,
    ground (arith, bad, ==_iff e.prev_hash previous, ==_iff e.entry_hash (digest (entry_basis e))),
    tt,
    λ h. bad h.0,
  )

  walk-links :
      (count : ℕ) (previous : String) (e : AuditEvent) (rest : List AuditEvent)
      → (e.prev_hash ≡ previous) × (e.entry_hash ≡ digest (entry_basis e))
      → walk digest count previous (e ∷ rest) ≡ walk digest count e.entry_hash rest
  unfolding walk entry_hash
  walk-links count previous e rest good =
      ground
        (arith, good, ==_iff e.prev_hash previous, ==_iff e.entry_hash (digest (entry_basis e)))

  links_or_not :
      (previous : String) (e : AuditEvent)
      → Dec ((e.prev_hash ≡ previous) × (e.entry_hash ≡ digest (entry_basis e)))
  links_or_not previous e =
      elim (Bool-cases (e.prev_hash == previous && e.entry_hash == digest (entry_basis e))) [
        | inl h ↦ yes (
            ground
              (arith, ==_iff e.prev_hash previous, ==_iff e.entry_hash (digest (entry_basis e))))
        | inr h ↦ no (λ good. ground (
          arith,
          good,
          ==_iff e.prev_hash previous,
          ==_iff e.entry_hash (digest (entry_basis e)),
        ))
      ]

  walk-breaks :
      (count : ℕ) (previous : String) (entries : List AuditEvent)
      → (walk digest count previous entries).valid ≡ false
      → BreaksAt previous entries (walk digest count previous entries).broken_at
  walk-breaks count previous [] h = absurd (unfold walk in cc)
  walk-breaks count previous (e ∷ rest) h = elim (links_or_not previous e) [
    | no bad ↦ breaks_here count previous e rest bad
    | yes good ↦
        let step = walk-links count previous e rest good in
        let ih = walk-breaks count e.entry_hash rest (ap (λ s. s.valid) (sym step) ∙ h) in
        (
          e ∷ ih.0,
          ih.1,
          ih.2,
          ap (λ xs. e ∷ xs) ih.3,
          ap (λ s. s.broken_at) step ∙ ih.4,
          (good, ih.5),
          λ linked. ih.6 linked.1,
        )
  ]

  -- The walk accepts a list of entries just when each links to the one before it and holds the hash
  -- of its own contents. When it refuses, it names the first entry that breaks the chain.
  pub verify_chain-BreaksAt :
      (entries : List AuditEvent)
      → ((IsLinked digest "" entries) × ((verify_chain digest entries).valid ≡ true))
        ⊎ ((BreaksAt "" entries (verify_chain digest entries).broken_at)
            × ((verify_chain digest entries).valid ≡ false))
  unfolding verify_chain
  verify_chain-BreaksAt entries =
      elim (Bool-cases (walk digest (length entries) "" entries).valid) [
        | inl h ↦ inl ((walk-IsLinked digest (length entries) "" entries).0 h, h)
        | inr h ↦ inr (walk-breaks (length entries) "" entries h, h)
      ]
