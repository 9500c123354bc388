-- ===== src/Server/Jobs.antt =====
-- The job queue of apiverity/server/jobs.py over the store of runs. A method is one call here, which no
-- call of another thread interrupts; Threads has the statements of `enqueue` one by one.
pub mod Rows
pub mod Calls
pub mod Threads
pub mod Bounds
pub mod Alone
pub mod Claims
pub mod Drained
pub mod Retries
pub mod Twice
use api_verity_lab.Common.{
  ℕ, String, ◌<>◌, Bool, true, false, not, ◌&&◌, ◌||◌, Option, none, some, List, [], ◌∷◌, ◌==◌,
  text_ord, leb, if◌then◌else◌,
}
use api_verity_lab.Common.Text.{is_empty}
use api_verity_lab.Server.Runs.{
  Run, RunStore, cancel_run, update_run, active_run_count, append_run_event, record_run,
  find_run_by_idempotency_key, claim_next_run,
}

-- What enqueue returns or raises.
pub data Enqueued : Type 0 where
  queue_full : Enqueued
  run : (run_id : ℕ) (created : Bool) → Enqueued

-- an enqueue with its arguments and the times that it reads
pub record Request : Type 0 where
  pub org_id : ℕ
  pub kind : String
  pub requested_by : String
  pub verification_for : Option String
  pub environment : Option String
  pub idempotency_key : Option String
  pub now : String
  pub ts : String

-- existing["status"] not in ("cancelled", "failed")
abbrev pub may_replay : Run → Bool
may_replay r = not (r.status == "cancelled" || r.status == "failed")

-- the run that an enqueue with this key returns instead of making one
unfoldable pub replayed : ℕ → Option String → RunStore → Option Run
replayed org_id none s = none
replayed org_id (some key) s =
    if is_empty key then none else elim (find_run_by_idempotency_key org_id (some key) s) [
      | none ↦ none
      | some r ↦ if may_replay r then some r else none
    ]

-- record_run and the event
unfoldable pub add_job : Request → RunStore → RunStore × Enqueued
add_job q s =
    let (s', run_id) =
      record_run q.org_id q.kind q.requested_by q.verification_for q.environment q.idempotency_key
        q.now s in
    (
      append_run_event run_id ("queued '" <> (q.kind <> ("' by " <> q.requested_by))) (some 0) q.ts
          s',
      run run_id true,
    )

unfoldable pub enqueue : ℕ → Request → RunStore → RunStore × Enqueued
enqueue max_active_per_org q s = elim (replayed q.org_id q.idempotency_key s) [
  | some r ↦ (s, run r.id false)
  | none ↦
      if leb max_active_per_org (active_run_count q.org_id s) then (s, queue_full) else add_job q s
]

unfoldable pub claim : ℕ → String → String → String → RunStore → RunStore × Option Run
claim org_id worker_name now ts s = claim_next_run org_id worker_name now ts s

unfoldable pub progress : ℕ → String → Option ℕ → String → RunStore → RunStore
progress run_id message pct ts s = append_run_event run_id message pct ts s

-- "passed" if passed else "failed"
abbrev pub outcome : Bool → String
outcome true = "passed"
outcome false = "failed"

-- `result` is json.dumps(result), or nothing for an empty dict
unfoldable pub complete : ℕ → Option String → Bool → String → String → RunStore → RunStore
complete run_id result passed now ts s =
    append_run_event run_id ("finished: " <> outcome passed) (some 100) ts
      (update_run run_id (outcome passed) result now s)

unfoldable pub cancel : ℕ → String → String → RunStore → RunStore × Bool
cancel run_id now ts s =
    let (s', done) = cancel_run run_id now s in
    if done then (append_run_event run_id "cancelled" none ts s', true) else (s', false)
