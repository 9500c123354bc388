-- ===== src/Server/Audit.antt =====
-- The audit log of apiverity/server/store.py and the walk over it of
-- apiverity/server/audit_export.py.
pub mod Chain
pub mod Broken
pub mod Tamper
use api_verity_lab.Common.{
  ℕ, ◌+◌, String, ◌<>◌, Bool, true, false, not, Option, none, some, List, [], ◌∷◌, ◌++◌, ◌==◌,
  nat_ord, text_ord, length, if◌then◌else◌,
}
use api_verity_lab.Server.Rows.{last_where}

-- ENTRY_FIELDS: what an entry of the log holds and carries into an export. `payload_json` is the text
-- that json.dumps gave.
pub record AuditEvent : Type 0 where
  pub id : ℕ
  pub ts : String
  pub actor : String
  pub action : String
  pub target : String
  pub payload_json : String
  pub prev_hash : String
  pub entry_hash : String

-- a row of audit_events
pub record AuditRow : Type 0 where
  pub org_id : ℕ
  pub event : AuditEvent

-- the table, with the last id that AUTOINCREMENT gave
pub record AuditLog : Type 0 where
  pub rows : List AuditRow
  pub last_id : ℕ

pub record ChainStatus : Type 0 where
  pub valid : Bool
  pub entry_count : ℕ
  pub broken_at : Option ℕ
  pub reason : Option String

abbrev pub empty_log : AuditLog
empty_log = record { rows = []; last_id = 0 }

-- f"{prev_hash}|{ts}|{actor}|{action}|{target}|{payload_json}"
unfoldable pub basis : String → String → String → String → String → String → String
basis prev_hash ts actor action target payload_json =
    prev_hash
    <> ("|"
        <> (ts
            <> ("|" <> (actor <> ("|" <> (action <> ("|" <> (target <> ("|" <> payload_json)))))))))

abbrev pub entry_basis : AuditEvent → String
entry_basis e = basis e.prev_hash e.ts e.actor e.action e.target e.payload_json

abbrev pub of_org : ℕ → AuditRow → Bool
of_org org_id row = row.org_id == org_id

unfoldable pub events_of : ℕ → List AuditRow → List AuditEvent
events_of org_id [] = []
events_of org_id (row ∷ rest) =
    let others = events_of org_id rest in if of_org org_id row then row.event ∷ others else others

-- SELECT * FROM audit_events WHERE org_id = ? ORDER BY id, without the column that is asked for
unfoldable pub audit_all : ℕ → AuditLog → List AuditEvent
unfolding events_of
audit_all org_id log = events_of org_id log.rows

-- last["entry_hash"] if last else ""
abbrev pub hash_of : Option AuditRow → String
hash_of none = ""
hash_of (some row) = row.event.entry_hash

unfoldable pub tail_hash : ℕ → AuditLog → String
tail_hash org_id log = hash_of (last_where (of_org org_id) log.rows)

-- hashlib.sha256(s.encode("utf-8")).hexdigest()
module _ (digest : String → String) where
  -- the row that audit_append inserts, with the hash of the tail that it read
  unfoldable pub new_entry : ℕ → String → String → String → String → String → String → AuditEvent
  new_entry id actor action target payload_json ts prev_hash = record {
    id = id;
    ts = ts;
    actor = actor;
    action = action;
    target = target;
    payload_json = payload_json;
    prev_hash = prev_hash;
    entry_hash = digest (basis prev_hash ts actor action target payload_json);
  }

  unfoldable pub audit_append : ℕ → String → String → String → String → String → AuditLog → AuditLog
  unfolding new_entry
  audit_append org_id actor action target payload_json ts log = record {
    rows =
        log.rows
        ++ record {
          org_id = org_id;
          event =
              new_entry (log.last_id + 1) actor action target payload_json ts
                (tail_hash org_id log);
        }
          ∷ [];
    last_id = log.last_id + 1;
  }

  unfoldable pub entry_hash : AuditEvent → String
  entry_hash e = digest (entry_basis e)

  -- the loop, with `previous` and len(entries)
  unfoldable pub walk : ℕ → String → List AuditEvent → ChainStatus
  walk count previous [] = record {
    valid = true;
    entry_count = count;
    broken_at = none;
    reason = none;
  }
  walk count previous (e ∷ rest) =
      let on = walk count e.entry_hash rest in
      if not (e.prev_hash == previous)
      then record {
        valid = false;
        entry_count = count;
        broken_at = some e.id;
        reason =
            some
              "prev_hash does not match the preceding entry: an entry was inserted, removed or reordered here";
      }
      else if not (e.entry_hash == entry_hash e)
      then record {
        valid = false;
        entry_count = count;
        broken_at = some e.id;
        reason = some "entry_hash does not match the entry's own contents: it was edited";
      }
      else on

  unfoldable pub verify_chain : List AuditEvent → ChainStatus
  unfolding walk
  verify_chain entries = walk (length entries) "" entries

  unfoldable pub audit_status : ℕ → AuditLog → ChainStatus
  audit_status org_id log = verify_chain (audit_all org_id log)

  abbrev pub audit_verify_chain : ℕ → AuditLog → Bool
  audit_verify_chain org_id log = (audit_status org_id log).valid
