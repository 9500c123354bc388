-- ===== src/Server/Export/Later.antt =====
-- An export of a later log, checked against an earlier one (apiverity/server/audit_export.py).
use mathlib.Core.List.{append-nil}
use api_verity_lab.Common.{
  ℕ, ◌+◌, String, ◌<>◌, true, Option, none, some, List, [], ◌∷◌, ◌++◌, ◌≡◌, refl, sym, ap, ◌∙◌,
  arith, ◌==◌, ==_refl, ==_iff, nat_ord, text_ord, option_ord, length, length-append, append_one,
  if◌then◌else◌,
}
use api_verity_lab.Common.Text.{print}
use api_verity_lab.Server.Audit.{
  events_of, AuditEvent, AuditLog, empty_log, verify_chain, audit_all,
}
use api_verity_lab.Server.Audit.Chain.{
  Append, append, append_all, append_all-IsLinked, walk-intact, IsLinked, audit_all-append,
  entry_of,
}
use api_verity_lab.Server.Export.{
  Document, export_schema, seal, unsealed, build_export, first_hash, last_hash,
}
use api_verity_lab.Server.Export.Problems.{
  continuity, compare_lists, compare_entries, chain_problems, count_problems, hash_problems,
}
use api_verity_lab.Server.Export.Verify.{
  compare_seal, checked_seal, checked_against, problems_of, verify_export,
}

compare_entries-append :
    (count index : ℕ) (earlier more : List AuditEvent)
    → compare_entries count index earlier (earlier ++ more)
      ≡ ("continuous (" <> (print count <> " earlier entries unchanged)"), [])
unfolding compare_entries
compare_entries-append count index [] more = refl
compare_entries-append count index (e ∷ earlier) more =
    rw (==_refl e.entry_hash) (compare_entries-append count (index + 1) earlier more)

module _ (digest : String → String) where
  -- what later calls append to the log of an organization
  later : ℕ → List Append → AuditLog → List AuditEvent
  later org_id [] log = []
  later org_id (c ∷ rest) log =
      let others = later org_id rest (append digest c log) in
      if c.org_id == org_id then entry_of digest c log ∷ others else others

  append_all-later :
      (org_id : ℕ) (calls : List Append) (log : AuditLog)
      → audit_all org_id (append_all digest calls log)
        ≡ audit_all org_id log ++ later org_id calls log
  unfolding append_all later
  append_all-later org_id [] log = sym (append-nil (audit_all org_id log))
  append_all-later org_id (c ∷ rest) log =
      append_all-later org_id rest (append digest c log)
      ∙ ground (
        arith,
        audit_all-append digest org_id c log,
        append_one (audit_all org_id log) (entry_of digest c log)
            (later org_id rest (append digest c log)),
      )

  append_all_twice-IsLinked :
      (first second : List Append) (org_id : ℕ)
      → IsLinked digest ""
          (audit_all org_id (append_all digest second (append_all digest first empty_log)))
  append_all_twice-IsLinked first second org_id =
      append_all-IsLinked digest org_id second (append_all digest first empty_log) (
        append_all-IsLinked digest org_id first empty_log
          (unfold audit_all in unfold events_of in tt))

module _ (digest : String → String) (canonical_bytes : Document → List ℕ)
    (hmac : List ℕ → List ℕ → String) where
  hash_problems-none :
      (document : Document) (entries : List AuditEvent)
      → document.first_entry_hash ≡ first_hash entries
      → document.last_entry_hash ≡ last_hash entries
      → hash_problems document entries ≡ []
  unfolding hash_problems
  hash_problems-none document [] p q = refl
  hash_problems-none document (e ∷ rest) p q = ground (
    arith,
    ==_iff document.first_entry_hash (first_hash (e ∷ rest)),
    ==_iff document.last_entry_hash (last_hash (e ∷ rest)),
    p,
    q,
  )

  continuity-later :
      (document previous : Document) (earlier more : List AuditEvent)
      → document.org_id ≡ previous.org_id
      → previous.entries ≡ some earlier
      → document.entries ≡ some (earlier ++ more)
      → continuity document previous
        ≡ ("continuous (" <> (print (length earlier) <> " earlier entries unchanged)"), [])
  unfolding continuity compare_lists
  continuity-later document previous earlier more org p q = ground (
    arith,
    org,
    p,
    q,
    ==_iff previous.org_id document.org_id,
    length-append earlier more,
    compare_entries-append (length earlier) 0 earlier more,
  )

  checked_seal-built :
      (key : List ℕ) (org_id : ℕ) (name : Option String) (entries : List AuditEvent)
      (at version : String)
      → checked_seal digest canonical_bytes hmac
          (build_export digest canonical_bytes hmac org_id name entries at version (some key))
          (some key)
        ≡ ("valid", [])
  unfolding checked_seal compare_seal build_export unsealed seal
  checked_seal-built key org_id name entries at version =
      let e = ==_refl (
        seal canonical_bytes hmac
          (unsealed digest canonical_bytes hmac org_id name entries at version) key) in
      rw e refl

  sealed_problems :
      (key : List ℕ) (org_id : ℕ) (name : Option String) (entries : List AuditEvent)
      (at version : String) (previous : Document)
      → (verify_chain digest entries).valid ≡ true
      → (continuity
          (build_export digest canonical_bytes hmac org_id name entries at version (some key))
          previous).1
        ≡ []
      → problems_of digest canonical_bytes hmac
          (build_export digest canonical_bytes hmac org_id name entries at version (some key))
          (some key)
          (some previous)
          entries
        ≡ []
  unfolding problems_of build_export unsealed chain_problems count_problems checked_against
  sealed_problems key org_id name entries at version previous valid same = ground (
    arith,
    valid,
    same,
    hash_problems-none
        (build_export digest canonical_bytes hmac org_id name entries at version (some key)) entries
        refl refl,
    ==_refl (some (length entries)),
    checked_seal-built key org_id name entries at version,
  )

  build_export-entries :
      (key : Option (List ℕ)) (org_id : ℕ) (name : Option String) (entries : List AuditEvent)
      (at version : String)
      → let document =
          build_export digest canonical_bytes hmac org_id name entries at version key in
        (document.entries ≡ some entries) × (document.org_id ≡ some org_id)
  unfolding build_export unsealed
  build_export-entries none org_id name entries at version = (refl, refl)
  build_export-entries (some key) org_id name entries at version = (refl, refl)

  verify_export-sealed :
      (key : List ℕ) (org_id : ℕ) (name : Option String) (entries : List AuditEvent)
      (at version state : String) (previous : Document)
      → IsLinked digest "" entries
      → continuity
          (build_export digest canonical_bytes hmac org_id name entries at version (some key))
          previous
        ≡ (state, [])
      → verify_export digest canonical_bytes hmac
          (build_export digest canonical_bytes hmac org_id name entries at version (some key))
          (some key)
          (some previous)
        ≡ record {
          ok = true;
          entry_count = length entries;
          chain = some (record {
            valid = true;
            entry_count = length entries;
            broken_at = none;
            reason = none;
          });
          seal_state = "valid";
          continuity = state;
          problems = [];
        }
  unfolding verify_export build_export unsealed checked_against verify_chain
  verify_export-sealed key org_id name entries at version state previous linked same =
      let intact = walk-intact digest (length entries) "" entries linked in
      ground (
        arith,
        intact,
        same,
        sealed_problems key org_id name entries at version previous (ap (λ s. s.valid) intact)
            (ap (λ p. p.1) same),
        ==_refl (some export_schema),
        checked_seal-built key org_id name entries at version,
      )

  -- An export of a log that was made by audit_append, sealed with a key, checks with that key against
  -- an export of the same log at an earlier time: the chain and the seal are valid, and every earlier
  -- entry is found unchanged.
  pub verify_export-later :
      (key : List ℕ) (earlier_key : Option (List ℕ)) (org_id : ℕ)
      (name earlier_name : Option String) (first second : List Append)
      (at version earlier_at earlier_version : String)
      → let log = append_all digest first empty_log in
        let events = audit_all org_id (append_all digest second log) in
        verify_export digest canonical_bytes hmac
          (build_export digest canonical_bytes hmac org_id name events at version (some key))
          (some key)
          (some (
            build_export digest canonical_bytes hmac org_id earlier_name
              (audit_all org_id log)
              earlier_at
              earlier_version
              earlier_key))
        ≡ record {
          ok = true;
          entry_count = length events;
          chain = some (record {
            valid = true;
            entry_count = length events;
            broken_at = none;
            reason = none;
          });
          seal_state = "valid";
          continuity =
              "continuous ("
              <> (print (length (audit_all org_id log)) <> " earlier entries unchanged)");
          problems = [];
        }
  verify_export-later key earlier_key org_id name earlier_name first second at version earlier_at
        earlier_version =
      let log = append_all digest first empty_log in
      let events = audit_all org_id (append_all digest second log) in
      let now = build_export-entries (some key) org_id name events at version in
      let before =
        build_export-entries earlier_key org_id earlier_name (audit_all org_id log) earlier_at
          earlier_version in
      verify_export-sealed key org_id name events at version _ _
        (append_all_twice-IsLinked digest first second org_id)
        (continuity-later _ _ (audit_all org_id log) (later digest org_id second log)
          (now.1 ∙ sym before.1) before.0
          (now.0 ∙ ap some (append_all-later digest org_id second log)))
