-- ===== src/Server/Export/Verify.antt =====
-- verify_export of apiverity/server/audit_export.py. The entries of the document have all their fields,
-- with their types: the exceptions that other entries raise are not modelled.
use api_verity_lab.Common.{
  ℕ, String, ◌<>◌, Bool, true, false, not, Option, none, some, List, [], ◌∷◌, ◌++◌, ◌==◌, nat_ord,
  text_ord, option_ord, length, if◌then◌else◌,
}
use api_verity_lab.Server.Audit.{AuditEvent, verify_chain}
use api_verity_lab.Server.Export.{
  Document, Seal, absent, other, value, ExportVerification, export_schema, seal,
}
use api_verity_lab.Server.Export.Problems.{
  continuity, shown_repr, chain_problems, count_problems, hash_problems,
}

-- seal_state and what is appended: with a key, by the value that the seal has to have
unfoldable pub compare_seal : String → Seal → String × List String
compare_seal expected (value v) =
    if v == expected
    then ("valid", [])
    else ("invalid", "the seal does not match: the document was altered, or the key differs" ∷ [])
compare_seal expected _ =
    ("expected but absent", "a key was supplied and the document carries no seal" ∷ [])

-- and without a key
unfoldable pub seal_presence : Seal → String
seal_presence absent = "absent"
seal_presence (other true) = "present, not checked (no key supplied)"
seal_presence (other false) = "absent"
seal_presence (value v) = "present, not checked (no key supplied)"

-- not problems
abbrev pub is_clean : List String → Bool
is_clean [] = true
is_clean (p ∷ rest) = false

module _ (digest : String → String) (canonical_bytes : Document → List ℕ)
    (hmac : List ℕ → List ℕ → String) where
  unfoldable pub checked_seal : Document → Option (List ℕ) → String × List String
  unfolding compare_seal seal_presence
  checked_seal document none = (seal_presence document.seal, [])
  checked_seal document (some key) =
      compare_seal (seal canonical_bytes hmac document key) document.seal

  unfoldable pub checked_against : Document → Option Document → String × List String
  unfolding continuity
  checked_against document none = ("not checked", [])
  checked_against document (some previous) = continuity document previous

  abbrev pub refused : String → ExportVerification
  refused problem = record {
    ok = false;
    entry_count = 0;
    chain = none;
    seal_state = "absent";
    continuity = "not checked";
    problems = problem ∷ [];
  }

  -- the problems of a document with these entries, in the order in which they are found
  unfoldable pub problems_of :
      Document → Option (List ℕ) → Option Document → List AuditEvent → List String
  unfolding chain_problems count_problems hash_problems checked_seal checked_against verify_chain
  problems_of document hmac_key against entries =
      chain_problems (verify_chain digest entries)
      ++ (count_problems document entries
          ++ (hash_problems document entries
              ++ ((checked_seal document hmac_key).1 ++ (checked_against document against).1)))

  unfoldable pub verify_export : Document → Option (List ℕ) → Option Document → ExportVerification
  verify_export document hmac_key against =
      if not (document.schema == some export_schema)
      then refused (
          "not an "
          <> (export_schema <> (" document (schema: " <> (shown_repr document.schema <> ")"))))
      else elim document.entries [
        | none ↦ refused "`entries` is missing or not a list"
        | some entries ↦ record {
          ok = is_clean (problems_of document hmac_key against entries);
          entry_count = length entries;
          chain = some (verify_chain digest entries);
          seal_state = (checked_seal document hmac_key).0;
          continuity = (checked_against document against).0;
          problems = problems_of document hmac_key against entries;
        }
      ]
