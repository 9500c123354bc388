-- ===== src/Server/Jobs/Threads.antt =====
-- Threads in `JobQueue.enqueue` of apiverity/server/jobs.py, statement by statement. Its calls of the
-- store are separate statements, so those of other threads come between them.
use api_verity_lab.Common.{
  ℕ, suc, ◌≤◌, String, Bool, true, false, Option, none, List, [], ◌∷◌, ◌++◌, ◌≡◌, ◌==◌, ◌||◌,
  text_ord, leb, length,
}
use api_verity_lab.Server.Runs.{
  RunStore, no_runs, active_run_count, append_run_event, record_run, update_run, claim_next_run,
}
use api_verity_lab.Server.Jobs.{Request, replayed}

-- Where a thread stands that has not returned: it found no run to replay, or it found room too.
pub data Waiting : Type 0 where
  looked : Request → Waiting
  allowed : Request → Waiting

-- status in ("queued", "running")
abbrev pub is_active_status : String → Bool
is_active_status status = status == "queued" || status == "running"

-- the store after record_run in `enqueue`
unfoldable pub insert_run : Request → RunStore → RunStore
insert_run q s =
    (record_run q.org_id q.kind q.requested_by q.verification_for q.environment q.idempotency_key
      q.now s).0

-- One statement of some thread, where no more than `threads` are in `enqueue` at once. A cancellation
-- or a completion is its UPDATE, whatever its thread read before; a thread that returns a replayed
-- run changes nothing.
pub data Step (threads max_active_per_org : ℕ)
    : RunStore → List Waiting → RunStore → List Waiting → Type 0 where
  look :
      (s : RunStore) (waiting : List Waiting) (q : Request)
      → suc (length waiting) ≤ threads
      → replayed q.org_id q.idempotency_key s ≡ none
      → Step threads max_active_per_org s waiting s (looked q ∷ waiting)
  room :
      (s : RunStore) (before after : List Waiting) (q : Request)
      → leb max_active_per_org (active_run_count q.org_id s) ≡ false
      → Step threads max_active_per_org s
          (before ++ looked q ∷ after)
          s
          (before ++ allowed q ∷ after)
  full :
      (s : RunStore) (before after : List Waiting) (q : Request)
      → leb max_active_per_org (active_run_count q.org_id s) ≡ true
      → Step threads max_active_per_org s (before ++ looked q ∷ after) s (before ++ after)
  insert :
      (s : RunStore) (before after : List Waiting) (q : Request)
      → Step threads max_active_per_org s
          (before ++ allowed q ∷ after)
          (insert_run q s)
          (before ++ after)
  claim :
      (s : RunStore) (waiting : List Waiting) (org_id : ℕ) (worker_name now ts : String)
      → Step threads max_active_per_org s waiting
          (claim_next_run org_id worker_name now ts s).0
          waiting
  settle :
      (s : RunStore) (waiting : List Waiting) (run_id : ℕ) (status : String)
      (result : Option String) (now : String)
      → is_active_status status ≡ false
      → Step threads max_active_per_org s waiting (update_run run_id status result now s) waiting
  note :
      (s : RunStore) (waiting : List Waiting) (run_id : ℕ) (message : String) (pct : Option ℕ)
      (ts : String)
      → Step threads max_active_per_org s waiting (append_run_event run_id message pct ts s) waiting

-- what some statements lead to from an empty store
pub data Reached (threads max_active_per_org : ℕ) : RunStore → List Waiting → Type 0 where
  opened : Reached threads max_active_per_org no_runs []
  after_step :
      {s t : RunStore} {waiting later : List Waiting}
      → Reached threads max_active_per_org s waiting
      → Step threads max_active_per_org s waiting t later
      → Reached threads max_active_per_org t later
