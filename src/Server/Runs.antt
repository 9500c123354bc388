-- ===== src/Server/Runs.antt =====
-- The runs and their events in the store of apiverity/server/store.py. The times that a method reads
-- are its arguments.
use api_verity_lab.Common.{
  ℕ, ◌+◌, String, ◌<>◌, Bool, true, false, not, ◌&&◌, ◌||◌, Option, none, some, List, [], ◌∷◌, ◌++◌,
  ◌==◌, nat_ord, text_ord, option_ord, keep, length, is_none, if◌then◌else◌,
}
use api_verity_lab.Server.Rows.{first_where, update_where}

-- a row of runs
pub record Run : Type 0 where
  pub id : ℕ
  pub org_id : ℕ
  pub kind : String
  pub status : String
  pub requested_by : String
  pub result_json : Option String
  pub verification_for : Option String
  pub environment : Option String
  pub created_at : String
  pub updated_at : String
  pub worker_name : Option String
  pub idempotency_key : Option String

-- a row of run_events
pub record RunEvent : Type 0 where
  pub id : ℕ
  pub run_id : ℕ
  pub ts : String
  pub message : String
  pub pct : Option ℕ

-- the two tables, and the last ids that AUTOINCREMENT gave
pub record RunStore : Type 0 where
  pub runs : List Run
  pub last_run : ℕ
  pub events : List RunEvent
  pub last_event : ℕ

abbrev pub no_runs : RunStore
no_runs = record { runs = []; last_run = 0; events = []; last_event = 0 }

-- SELECT * FROM runs WHERE id = ?
unfoldable pub get_run : ℕ → RunStore → Option Run
get_run run_id s = first_where (λ r. r.id == run_id) s.runs

-- org_id = ? AND idempotency_key = ?
abbrev pub has_key : ℕ → Option String → Run → Bool
has_key org_id key r = r.org_id == org_id && not (is_none key) && r.idempotency_key == key

unfoldable pub find_run_by_idempotency_key : ℕ → Option String → RunStore → Option Run
find_run_by_idempotency_key org_id key s = first_where (has_key org_id key) s.runs

-- COALESCE(?, result_json)
abbrev pub coalesce : Option String → Option String → Option String
coalesce none old = old
coalesce (some new) old = some new

-- SET status = ?, result_json = COALESCE(?, result_json), updated_at = ?
abbrev pub with_status : String → Option String → String → Run → Run
with_status status result now r = record r {
  status = status;
  result_json = coalesce result r.result_json;
  updated_at = now;
}

unfoldable pub update_run : ℕ → String → Option String → String → RunStore → RunStore
update_run run_id status result now s = record s {
  runs = update_where (λ r. r.id == run_id) (with_status status result now) s.runs;
}

-- status IN ('queued','running')
abbrev pub is_active : Run → Bool
is_active r = r.status == "queued" || r.status == "running"

-- get_run and update_run, two statements, with nothing of another thread between them
unfoldable pub cancel_run : ℕ → String → RunStore → RunStore × Bool
cancel_run run_id now s = elim (get_run run_id s) [
  | none ↦ (s, false)
  | some r ↦
      if not (is_active r) then (s, false) else (update_run run_id "cancelled" none now s, true)
]

abbrev pub counts : ℕ → Run → Bool
counts org_id r = r.org_id == org_id && is_active r

unfoldable pub active_run_count : ℕ → RunStore → ℕ
active_run_count org_id s = length (keep (counts org_id) s.runs)

unfoldable pub append_run_event : ℕ → String → Option ℕ → String → RunStore → RunStore
append_run_event run_id message pct ts s = record s {
  events =
      s.events
      ++ record { id = s.last_event + 1; run_id = run_id; ts = ts; message = message; pct = pct }
        ∷ [];
  last_event = s.last_event + 1;
}

-- the row that record_run inserts for a queued run
unfoldable pub queued_run :
    ℕ → ℕ → String → String → Option String → Option String → Option String → String → Run
queued_run id org_id kind requested_by verification_for environment idempotency_key ts = record {
  id = id;
  org_id = org_id;
  kind = kind;
  status = "queued";
  requested_by = requested_by;
  result_json = none;
  verification_for = verification_for;
  environment = environment;
  created_at = ts;
  updated_at = ts;
  worker_name = none;
  idempotency_key = idempotency_key;
}

-- record_run with status="queued" and no result. The index idx_runs_idem refuses a second row with the
-- organization and the key of an old one; the id of the old one is returned then.
unfoldable pub record_run :
    ℕ
    → String
    → String
    → Option String
    → Option String
    → Option String
    → String
    → RunStore
    → RunStore × ℕ
record_run org_id kind requested_by verification_for environment idempotency_key ts s =
    elim (find_run_by_idempotency_key org_id idempotency_key s) [
      | some old ↦ (s, old.id)
      | none ↦ (
        record s {
          runs =
              s.runs
              ++ queued_run (s.last_run + 1) org_id kind requested_by verification_for environment
                  idempotency_key ts
                ∷ [];
          last_run = s.last_run + 1;
        },
        s.last_run + 1,
      )
    ]

-- org_id = ? AND status = 'queued'
abbrev pub is_queued : ℕ → Run → Bool
is_queued org_id r = r.org_id == org_id && r.status == "queued"

-- SET status = 'running', worker_name = ?, updated_at = ?
abbrev pub with_worker : String → String → Run → Run
with_worker worker_name now r = record r {
  status = "running";
  worker_name = some worker_name;
  updated_at = now;
}

unfoldable pub claim_next_run : ℕ → String → String → String → RunStore → RunStore × Option Run
claim_next_run org_id worker_name now ts s = elim (first_where (is_queued org_id) s.runs) [
  | none ↦ (s, none)
  | some row ↦
      let s' = record s {
        runs = update_where (λ r. r.id == row.id) (with_worker worker_name now) s.runs;
      } in
      (
        append_run_event row.id ("claimed by worker '" <> (worker_name <> "'")) (some 0) ts s',
        get_run row.id s',
      )
]
