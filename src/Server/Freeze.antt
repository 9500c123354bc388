-- ===== src/Server/Freeze.antt =====
-- The emergency stop of apiverity/server/freeze.py and apiverity/server/store.py. Each method runs as
-- one step, as under the lock of the store; the times that it reads are its arguments.
pub mod Rows
pub mod Spec
use api_verity_lab.Common.{
  ℕ, ◌+◌, String, ◌<>◌, Bool, true, false, ◌&&◌, Option, none, some, List, [], ◌∷◌, ◌++◌, ◌==◌,
  nat_ord, is_none, compare_text, Ordering, if◌then◌else◌,
}
use api_verity_lab.Common.Text.{print, is_empty}
use api_verity_lab.Server.Rows.{last_where, update_where}
use api_verity_lab.Server.Audit.{AuditLog, empty_log, audit_append}

-- a row of the table freezes
pub record FreezeRow : Type 0 where
  pub id : ℕ
  pub org_id : ℕ
  pub reason : String
  pub actor : String
  pub created_at : String
  pub review_by : Option String
  pub lifted_at : Option String
  pub lifted_by : Option String
  pub lift_reason : Option String

pub record FreezeState : Type 0 where
  pub active : Bool
  pub reason : Option String
  pub actor : Option String
  pub since : Option String
  pub review_by : Option String
  pub overdue : Bool

-- the two tables, and the last id that AUTOINCREMENT gave in freezes
pub record Store : Type 0 where
  pub freezes : List FreezeRow
  pub last_freeze : ℕ
  pub audit : AuditLog

abbrev pub empty_store : Store
empty_store = record { freezes = []; last_freeze = 0; audit = empty_log }

abbrev pub frozen : String
frozen = "org.frozen"

abbrev pub lifted : String
lifted = "org.freeze_lifted"

-- FreezeState(active=False)
abbrev pub inactive : FreezeState
inactive = record {
  active = false;
  reason = none;
  actor = none;
  since = none;
  review_by = none;
  overdue = false;
}

-- s < t
abbrev text_less : String → String → Bool
text_less s t = elim (compare_text s t) [ Ordering.lt ↦ true | _ ↦ false ]

-- review_by and review_by < _now()
unfoldable pub is_overdue : Option String → String → Bool
unfolding is_empty
is_overdue none now = false
is_overdue (some t) now = if is_empty t then false else text_less t now

-- org_id = ? AND lifted_at IS NULL
abbrev pub is_open : ℕ → FreezeRow → Bool
is_open org_id row = row.org_id == org_id && is_none row.lifted_at

abbrev pub state_of : Option FreezeRow → String → FreezeState
state_of none now = inactive
state_of (some row) now = record {
  active = true;
  reason = some row.reason;
  actor = some row.actor;
  since = some row.created_at;
  review_by = row.review_by;
  overdue = is_overdue row.review_by now;
}

unfoldable pub freeze_state : ℕ → String → Store → FreezeState
freeze_state org_id now s = state_of (last_where (is_open org_id) s.freezes) now

-- SET lifted_at = ?, lifted_by = ?, lift_reason = ?
abbrev pub close_row : String → String → String → FreezeRow → FreezeRow
close_row now actor reason row = record row {
  lifted_at = some now;
  lifted_by = some actor;
  lift_reason = some reason;
}

-- `reason_json` is json.dumps({"reason": reason}, sort_keys=True).
module _ (digest : String → String) (reason_json : String → String) where
  -- The row and the entry of the log that `freeze` adds where the organization is not frozen.
  unfoldable pub add_freeze : ℕ → String → String → Option String → String → String → Store → Store
  add_freeze org_id actor reason review_by now ts s = record {
    freezes =
        s.freezes
        ++ record {
          id = s.last_freeze + 1;
          org_id = org_id;
          reason = reason;
          actor = actor;
          created_at = now;
          review_by = review_by;
          lifted_at = none;
          lifted_by = none;
          lift_reason = none;
        }
          ∷ [];
    last_freeze = s.last_freeze + 1;
    audit =
        audit_append digest org_id actor frozen ("org:" <> print org_id) (reason_json reason) ts
          s.audit;
  }

  unfoldable pub freeze :
      ℕ → String → String → Option String → String → String → String → Store → Store × FreezeState
  freeze org_id actor reason review_by now ts later s =
      let current = freeze_state org_id now s in
      if current.active
      then (s, current)
      else let s' = add_freeze org_id actor reason review_by now ts s in
        (s', freeze_state org_id later s')

  -- the update of the row and the entry of the log
  unfoldable pub close_freeze : ℕ → String → String → String → String → FreezeRow → Store → Store
  close_freeze org_id actor reason now ts row s = record s {
    freezes = update_where (λ r. r.id == row.id) (close_row now actor reason) s.freezes;
    audit =
        audit_append digest org_id actor lifted ("org:" <> print org_id) (reason_json reason) ts
          s.audit;
  }

  unfoldable pub lift_freeze : ℕ → String → String → String → String → Store → Store × FreezeState
  lift_freeze org_id actor reason now ts s = elim (last_where (is_open org_id) s.freezes) [
    | none ↦ (s, inactive)
    | some row ↦ (close_freeze org_id actor reason now ts row s, inactive)
  ]
