-- ===== src/Server/Export/Sound.antt =====
-- What a document that verify_export of apiverity/server/audit_export.py accepts is known to hold.
use api_verity_lab.Common.{
  ℕ, ◌+◌, ◌≤◌, String, true, some, List, [], ◌∷◌, ◌++◌, ◌≡◌, refl, arith, ==_iff, nat_ord, text_ord,
  option_ord, length,
}
use api_verity_lab.Server.Audit.{AuditEvent, verify_chain}
use api_verity_lab.Server.Audit.Chain.{IsLinked, walk-IsLinked}
use api_verity_lab.Server.Export.{Document, Seal, absent, other, value, seal}
use api_verity_lab.Server.Export.Problems.{
  continuity, compare_lists, compare_entries, chain_problems, count_problems, hash_problems,
}
use api_verity_lab.Server.Export.Verify.{
  is_clean, compare_seal, checked_seal, checked_against, problems_of, verify_export,
}

-- the first entries have the hashes of the earlier ones
abbrev pub StartsWith : List AuditEvent → List AuditEvent → Type 0
StartsWith current [] = Unit
StartsWith [] (e ∷ earlier) = ⊥
StartsWith (f ∷ current) (e ∷ earlier) = (e.entry_hash ≡ f.entry_hash) × StartsWith current earlier

append-nil_parts {ℓ} : {A : Type ℓ} (xs ys : List A) → xs ++ ys ≡ [] → (xs ≡ []) × (ys ≡ [])
append-nil_parts [] ys h = (refl, h)
append-nil_parts (x ∷ xs) ys h = ground (arith, h)

compare_entries-StartsWith :
    (count index : ℕ) (earlier current : List AuditEvent)
    → length earlier ≤ length current
    → (compare_entries count index earlier current).1 ≡ []
    → StartsWith current earlier
unfolding compare_entries
compare_entries-StartsWith count index [] current le h = tt
compare_entries-StartsWith count index (e ∷ earlier) [] le h = absurd (omega (arith, le))
compare_entries-StartsWith count index (e ∷ earlier) (f ∷ current) le h = ground (
  arith,
  h,
  ==_iff e.entry_hash f.entry_hash,
  compare_entries-StartsWith count (index + 1) earlier current,
)

compare_lists-StartsWith :
    (document previous : Document) (earlier current : List AuditEvent)
    → (compare_lists document previous earlier current).1 ≡ []
    → (previous.org_id ≡ document.org_id) × StartsWith current earlier
unfolding compare_lists
compare_lists-StartsWith document previous earlier current h = ground (
  arith,
  h,
  ==_iff previous.org_id document.org_id,
  compare_entries-StartsWith (length earlier) 0 earlier current,
)

is_clean-nil : (problems : List String) → is_clean problems ≡ true → problems ≡ []
is_clean-nil [] h = refl
is_clean-nil (p ∷ rest) h = ground (arith, h)

compare_seal-value :
    (expected : String) (s : Seal) → (compare_seal expected s).1 ≡ [] → s ≡ value expected
unfolding compare_seal
compare_seal-value expected absent h = ground (arith, h)
compare_seal-value expected (other b) h = ground (arith, h)
compare_seal-value expected (value v) h = ground (arith, h, ==_iff v expected)

module _ (digest : String → String) (canonical_bytes : Document → List ℕ)
    (hmac : List ℕ → List ℕ → String) where
  -- The document has the chain, the count and the seal of its own entries, and continues the earlier.
  pub record IsEvidence (document previous : Document) (key : List ℕ)
      (entries earlier : List AuditEvent) : Type 0 where
    pub linked : IsLinked digest "" entries
    pub counted : document.entry_count ≡ some (length entries)
    pub sealed : document.seal ≡ value (seal canonical_bytes hmac document key)
    pub same_org : previous.org_id ≡ document.org_id
    pub continues : StartsWith entries earlier

  problems_of-parts :
      (document previous : Document) (key : List ℕ) (entries : List AuditEvent)
      → problems_of digest canonical_bytes hmac document (some key) (some previous) entries ≡ []
      → (chain_problems (verify_chain digest entries) ≡ [])
        × (count_problems document entries ≡ [])
        × ((checked_seal digest canonical_bytes hmac document (some key)).1 ≡ [])
        × ((continuity document previous).1 ≡ [])
  unfolding problems_of checked_against
  problems_of-parts document previous key entries h =
      let (a, r1) = append-nil_parts (chain_problems (verify_chain digest entries)) _ h in
      let (b, r2) = append-nil_parts (count_problems document entries) _ r1 in
      let (c, r3) = append-nil_parts (hash_problems document entries) _ r2 in
      let (d, e) =
        append-nil_parts (checked_seal digest canonical_bytes hmac document (some key)).1 _ r3 in
      (a, b, d, e)

  -- no problem, no matter which were looked for
  evidence :
      (document previous : Document) (key : List ℕ) (entries earlier : List AuditEvent)
      → previous.entries ≡ some earlier
      → document.entries ≡ some entries
      → problems_of digest canonical_bytes hmac document (some key) (some previous) entries ≡ []
      → IsEvidence document previous key entries earlier
  unfolding chain_problems count_problems checked_seal continuity verify_chain
  evidence document previous key entries earlier p q h =
      let parts = problems_of-parts document previous key entries h in
      let both =
        compare_lists-StartsWith document previous earlier entries
          (ground (arith, p, q, parts.3)) in
      record {
        linked = (walk-IsLinked digest (length entries) "" entries).0 (ground (arith, parts.0));
        counted = ground (arith, parts.1, ==_iff document.entry_count (some (length entries)));
        sealed = compare_seal-value (seal canonical_bytes hmac document key) document.seal parts.2;
        same_org = both.0;
        continues = both.1;
      }

  -- A document that is accepted with a key against an earlier one has a chain that verifies, as many
  -- entries as it says, the seal of that key, and the hashes of the earlier entries at the same places,
  -- for the same organization.
  pub verify_export-IsEvidence :
      (document previous : Document) (key : List ℕ) (entries earlier : List AuditEvent)
      → previous.entries ≡ some earlier
      → document.entries ≡ some entries
      → (verify_export digest canonical_bytes hmac document (some key) (some previous)).ok ≡ true
      → IsEvidence document previous key entries earlier
  unfolding verify_export
  verify_export-IsEvidence document previous key entries earlier p q h =
      evidence document previous key entries earlier p q (is_clean-nil _ (ground (arith, h, q)))
