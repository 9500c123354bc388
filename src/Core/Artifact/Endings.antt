-- ===== src/Core/Artifact/Endings.antt =====
-- The line endings that `normalized_contract_bytes` (apiverity/core/artifact.py) forgets.
use api_verity_lab.Common.{
  ℕ, String, false, Option, some, [], ◌∷◌, ◌≡◌, refl, sym, ap, ◌∙◌, arith, ◌==◌, ==_iff, nat_ord,
  if◌then◌else◌, contains, Bool-cases, ◌⊎◌, inl, inr,
}
use api_verity_lab.Common.Text.{is_empty}
use api_verity_lab.Core.Artifact.{
  Bytes, lf, cr, replace_crlf, replace_cr, normalized_contract_bytes, digest_of, contract_hash,
}

-- Bytes without a carriage return stay as they are.
replace_cr-id : (raw : Bytes) → contains cr raw ≡ false → replace_cr raw ≡ raw
unfolding contains replace_cr
replace_cr-id [] h = refl
replace_cr-id (c ∷ rest) h = ground (arith, h, replace_cr-id rest, ==_iff c cr, ==_iff cr c)

replace_crlf-id : (raw : Bytes) → contains cr raw ≡ false → replace_crlf raw ≡ raw
unfolding contains replace_crlf
replace_crlf-id [] h = refl
replace_crlf-id (c ∷ []) h = refl
replace_crlf-id (c ∷ d ∷ rest) h =
    ground (arith, h, replace_crlf-id (d ∷ rest), ==_iff c cr, ==_iff cr c)

normalized-id : (raw : Bytes) → contains cr raw ≡ false → normalized_contract_bytes raw ≡ raw
unfolding normalized_contract_bytes
normalized-id raw h = ground (arith, replace_crlf-id raw h, replace_cr-id raw h)

-- every line feed of a text written as the two bytes of Windows
abbrev pub with_crlf : Bytes → Bytes
with_crlf [] = []
with_crlf (c ∷ rest) =
    let others = with_crlf rest in if c == lf then cr ∷ lf ∷ others else c ∷ others

-- every line feed of a text written as one carriage return
abbrev pub with_cr : Bytes → Bytes
with_cr [] = []
with_cr (c ∷ rest) = (if c == lf then cr else c) ∷ with_cr rest

replace_crlf-other :
    (c : ℕ) (rest : Bytes) → (c == cr) ≡ false → replace_crlf (c ∷ rest) ≡ c ∷ replace_crlf rest
unfolding replace_crlf
replace_crlf-other c [] h = refl
replace_crlf-other c (d ∷ rest) h = rw h refl

replace_crlf-with_crlf :
    (text : Bytes) → contains cr text ≡ false → replace_crlf (with_crlf text) ≡ text
unfolding contains replace_crlf
replace_crlf-with_crlf [] h = refl
replace_crlf-with_crlf (c ∷ rest) h = elim (Bool-cases (c == lf)) [
  | inl feed ↦ rw feed (
      ap (λ xs. lf ∷ xs) (replace_crlf-with_crlf rest (ground (arith, h)))
      ∙ ap (λ x. x ∷ rest) (sym ((==_iff c lf).0 feed)))
  | inr other ↦ rw other (
      replace_crlf-other c (with_crlf rest) (ground (arith, h, ==_iff c cr, ==_iff cr c))
      ∙ ap (λ xs. c ∷ xs) (replace_crlf-with_crlf rest (ground (arith, h))))
]

with_crlf-no_nul : (text : Bytes) → contains 0 text ≡ false → contains 0 (with_crlf text) ≡ false
unfolding contains
with_crlf-no_nul [] h = refl
with_crlf-no_nul (c ∷ rest) h = ground (arith, h, with_crlf-no_nul rest)

with_cr-no_nul : (text : Bytes) → contains 0 text ≡ false → contains 0 (with_cr text) ≡ false
unfolding contains
with_cr-no_nul [] h = refl
with_cr-no_nul (c ∷ rest) h = ground (arith, h, with_cr-no_nul rest)

with_cr-no_lf : (text : Bytes) → contains lf (with_cr text) ≡ false
unfolding contains
with_cr-no_lf [] = refl
with_cr-no_lf (c ∷ rest) = ground (arith, with_cr-no_lf rest, ==_iff c lf, ==_iff lf c)

replace_crlf-no_lf : (raw : Bytes) → contains lf raw ≡ false → replace_crlf raw ≡ raw
unfolding contains replace_crlf
replace_crlf-no_lf [] h = refl
replace_crlf-no_lf (c ∷ []) h = refl
replace_crlf-no_lf (c ∷ d ∷ rest) h =
    ground (arith, h, replace_crlf-no_lf (d ∷ rest), ==_iff d lf, ==_iff lf d)

replace_cr-with_cr : (text : Bytes) → contains cr text ≡ false → replace_cr (with_cr text) ≡ text
unfolding contains replace_cr
replace_cr-with_cr [] h = refl
replace_cr-with_cr (c ∷ rest) h =
    ground (arith, h, replace_cr-with_cr rest, ==_iff c lf, ==_iff c cr, ==_iff cr c)

module _ (read : String → Option Bytes) (sha256 : Bytes → String) (here : String) (text : Bytes)
    (unix : contains cr text ≡ false) (not_binary : contains 0 text ≡ false) where
  normalized-with_crlf : normalized_contract_bytes (with_crlf text) ≡ text
  unfolding normalized_contract_bytes
  normalized-with_crlf =
      rw (with_crlf-no_nul text not_binary, replace_crlf-with_crlf text unix)
        (replace_cr-id text unix)

  normalized-with_cr : normalized_contract_bytes (with_cr text) ≡ text
  unfolding normalized_contract_bytes
  normalized-with_cr =
      rw (with_cr-no_nul text not_binary, replace_crlf-no_lf (with_cr text) (with_cr-no_lf text))
        (replace_cr-with_cr text unix)

  -- A text contract has one hash on every platform: a checkout whose lines end in a line feed, in a
  -- carriage return and a line feed, or in a carriage return, gives the hash of the text itself.
  pub contract_hash-endings :
      is_empty here ≡ false
      → (read here ≡ some text)
        ⊎ ((read here ≡ some (with_crlf text)) ⊎ (read here ≡ some (with_cr text)))
      → contract_hash read sha256 (some here) ≡ sha256 text
  unfolding contract_hash digest_of
  contract_hash-endings named (inl same) = rw (named, same) (ap sha256 (normalized-id text unix))
  contract_hash-endings named (inr (inl windows)) =
      rw (named, windows) (ap sha256 normalized-with_crlf)
  contract_hash-endings named (inr (inr old_mac)) =
      rw (named, old_mac) (ap sha256 normalized-with_cr)
