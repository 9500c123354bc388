-- ===== src/Server/Audit/Chain.antt =====
-- The walk over the audit chain (apiverity/server/audit_export.py), stated by its links, and the
-- appends of apiverity/server/store.py that keep it.
use api_verity_lab.Common.{
  ℕ, ◌+◌, String, true, none, some, List, [], ◌∷◌, ◌++◌, ◌==◌, ◌≡◌, refl, sym, ap, ◌∙◌, subst, ◌↔◌,
  inl, inr, nat_ord, text_ord, if◌then◌else◌, arith, ==_iff, Bool-cases,
}
use api_verity_lab.Server.Rows.{last_where}
use api_verity_lab.Server.Audit.{
  AuditEvent, AuditRow, AuditLog, events_of, empty_log, entry_basis, of_org, audit_all, tail_hash,
  new_entry, audit_append, entry_hash, walk, verify_chain, audit_status,
}

-- the hash that the entry after these would link to
abbrev pub tip : String → List AuditEvent → String
tip previous [] = previous
tip previous (e ∷ rest) = tip e.entry_hash rest

-- an audit_append with its arguments and the time it reads
pub record Append : Type 0 where
  pub org_id : ℕ
  pub actor : String
  pub action : String
  pub target : String
  pub payload_json : String
  pub ts : String

module _ (digest : String → String) where
  -- each entry links to the one before it and holds the hash of its own contents
  abbrev pub IsLinked : String → List AuditEvent → Type 0
  IsLinked previous [] = Unit
  IsLinked previous (e ∷ rest) =
      ((e.prev_hash ≡ previous) × (e.entry_hash ≡ digest (entry_basis e)))
      × IsLinked e.entry_hash rest

  pub walk-IsLinked :
      (count : ℕ) (previous : String) (entries : List AuditEvent)
      → ((walk digest count previous entries).valid ≡ true) ↔ IsLinked previous entries
  unfolding walk entry_hash
  walk-IsLinked count previous [] = (λ _. tt, λ _. refl)
  walk-IsLinked count previous (e ∷ rest) = ground (
    arith,
    ==_iff e.prev_hash previous,
    ==_iff e.entry_hash (digest (entry_basis e)),
    walk-IsLinked count e.entry_hash rest,
  )

  pub walk-intact :
      (count : ℕ) (previous : String) (entries : List AuditEvent)
      → IsLinked previous entries
      → walk digest count previous entries
        ≡ record { valid = true; entry_count = count; broken_at = none; reason = none }
  unfolding walk entry_hash
  walk-intact count previous [] h = refl
  walk-intact count previous (e ∷ rest) h = ground (
    arith,
    ==_iff e.prev_hash previous,
    ==_iff e.entry_hash (digest (entry_basis e)),
    walk-intact count e.entry_hash rest h.1,
    h.0,
  )

  IsLinked-snoc :
      (previous : String) (entries : List AuditEvent) (e : AuditEvent)
      → IsLinked previous entries
      → e.prev_hash ≡ tip previous entries
      → e.entry_hash ≡ digest (entry_basis e)
      → IsLinked previous (entries ++ e ∷ [])
  IsLinked-snoc previous [] e h p q = ((p, q), tt)
  IsLinked-snoc previous (f ∷ rest) e h p q = (h.0, IsLinked-snoc f.entry_hash rest e h.1 p q)

  events_of-tip :
      (org_id : ℕ) (previous : String) (rows : List AuditRow)
      → tip previous (events_of org_id rows) ≡ (elim (last_where (of_org org_id) rows) [
        | none ↦ previous
        | some row ↦ row.event.entry_hash
      ])
  unfolding events_of last_where
  events_of-tip org_id previous [] = refl
  events_of-tip org_id previous (row ∷ rows) =
      ground
        (arith, events_of-tip org_id previous rows, events_of-tip org_id row.event.entry_hash rows)

  events_of-snoc :
      (org_id : ℕ) (rows : List AuditRow) (row : AuditRow)
      → events_of org_id (rows ++ row ∷ []) ≡ (
          if row.org_id == org_id
          then events_of org_id rows ++ row.event ∷ []
          else events_of org_id rows)
  unfolding events_of
  events_of-snoc org_id [] row = refl
  events_of-snoc org_id (r ∷ rows) row = ground (arith, events_of-snoc org_id rows row)

  tail_hash-tip :
      (org_id : ℕ) (log : AuditLog) → tail_hash org_id log ≡ tip "" (audit_all org_id log)
  unfolding tail_hash audit_all
  tail_hash-tip org_id log = ground (arith, events_of-tip org_id "" log.rows)

  abbrev pub entry_of : Append → AuditLog → AuditEvent
  entry_of c log =
      new_entry digest (log.last_id + 1) c.actor c.action c.target c.payload_json c.ts
        (tail_hash c.org_id log)

  abbrev pub append : Append → AuditLog → AuditLog
  append c log = audit_append digest c.org_id c.actor c.action c.target c.payload_json c.ts log

  pub audit_all-append :
      (org_id : ℕ) (c : Append) (log : AuditLog)
      → audit_all org_id (append c log) ≡ (
          if c.org_id == org_id
          then audit_all org_id log ++ entry_of c log ∷ []
          else audit_all org_id log)
  unfolding audit_append audit_all new_entry
  audit_all-append org_id c log =
      events_of-snoc org_id log.rows (record { org_id = c.org_id; event = entry_of c log })

  pub audit_append-IsLinked :
      (org_id : ℕ) (c : Append) (log : AuditLog)
      → IsLinked "" (audit_all org_id log)
      → IsLinked "" (audit_all org_id (append c log))
  unfolding new_entry
  audit_append-IsLinked org_id c log h =
      subst (IsLinked "") (sym (audit_all-append org_id c log))
        (elim (Bool-cases (c.org_id == org_id)) [
          | inl same ↦ rw same (
              IsLinked-snoc "" (audit_all org_id log) (entry_of c log) h
                (ap (λ o. tail_hash o log) ((==_iff c.org_id org_id).0 same)
                  ∙ tail_hash-tip org_id log)
                refl)
          | inr other ↦ rw other h
        ])

  unfoldable pub append_all : List Append → AuditLog → AuditLog
  append_all [] log = log
  append_all (c ∷ rest) log = append_all rest (append c log)

  pub append_all-IsLinked :
      (org_id : ℕ) (calls : List Append) (log : AuditLog)
      → IsLinked "" (audit_all org_id log)
      → IsLinked "" (audit_all org_id (append_all calls log))
  unfolding append_all
  append_all-IsLinked org_id [] log h = h
  append_all-IsLinked org_id (c ∷ rest) log h =
      append_all-IsLinked org_id rest (append c log) (audit_append-IsLinked org_id c log h)

  -- Whatever audit_append calls are made, for any organizations and in any order, the chain of every
  -- organization verifies.
  pub append_all-valid :
      (org_id : ℕ) (calls : List Append)
      → (audit_status digest org_id (append_all calls empty_log)).valid ≡ true
  unfolding audit_status verify_chain
  append_all-valid org_id calls =
      (walk-IsLinked _ "" (audit_all org_id (append_all calls empty_log))).1
        (append_all-IsLinked org_id calls empty_log (unfold audit_all in unfold events_of in tt))
