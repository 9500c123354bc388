-- ===== src/Core/Artifact.antt =====
-- `normalized_contract_bytes` and `contract_hash` of apiverity/core/artifact.py.
pub mod Endings
use api_verity_lab.Common.{
  ℕ, zero, suc, String, ◌<>◌, Bool, true, false, ◌&&◌, Option, none, some, List, [], ◌∷◌, ◌==◌,
  nat_ord, if◌then◌else◌, contains,
}
use api_verity_lab.Common.Text.{is_empty}

abbrev pub Bytes : Type 0
Bytes = List ℕ

abbrev pub lf : ℕ
lf = 10

abbrev pub cr : ℕ
cr = 13

-- raw.replace(b"\r\n", b"\n")
unfoldable pub replace_crlf : Bytes → Bytes
replace_crlf [] = []
replace_crlf (c ∷ []) = c ∷ []
replace_crlf (c ∷ d ∷ rest) =
    let after_one = replace_crlf (d ∷ rest) in
    let after_two = replace_crlf rest in
    if c == cr && d == lf then lf ∷ after_two else c ∷ after_one

-- raw.replace(b"\r", b"\n")
unfoldable pub replace_cr : Bytes → Bytes
replace_cr [] = []
replace_cr (c ∷ rest) = (if c == cr then lf else c) ∷ replace_cr rest

unfoldable pub normalized_contract_bytes : Bytes → Bytes
normalized_contract_bytes raw = if contains 0 raw then raw else replace_cr (replace_crlf raw)

-- s * n
repeat_text : ℕ → String → String
repeat_text zero s = ""
repeat_text (suc n) s = s <> repeat_text n s

abbrev is_missing : Option String → Bool
is_missing none = true
is_missing (some path) = is_empty path

-- `read` gives nothing where reading the file raises `OSError`; `sha256` gives the hexadecimal digest
-- of some bytes.
module _ (read : String → Option Bytes) (sha256 : Bytes → String) where
  digest_of : Option Bytes → String
  unfolding repeat_text
  digest_of none = repeat_text 64 "0"
  digest_of (some raw) = sha256 (normalized_contract_bytes raw)

  -- `read` gives nothing where read_bytes raises OSError; no path has a zero character, for which it
  -- raises ValueError.
  unfoldable pub contract_hash : Option String → String
  unfolding repeat_text digest_of
  contract_hash none = repeat_text 64 "0"
  contract_hash (some path) = if is_empty path then repeat_text 64 "0" else digest_of (read path)
