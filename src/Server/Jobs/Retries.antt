-- ===== src/Server/Jobs/Retries.antt =====
-- Retries with an idempotency key (apiverity/server/jobs.py).
use api_verity_lab.Common.{ℕ, String, true, false, none, some, ◌≡◌, refl, leb}
use api_verity_lab.Common.Text.{is_empty}
use api_verity_lab.Server.Runs.{
  Run, RunStore, active_run_count, append_run_event, record_run, find_run_by_idempotency_key,
}
use api_verity_lab.Server.Jobs.{run, Request, may_replay, replayed, add_job, enqueue}

module _ (max_active : ℕ) (q : Request) (key : String) (s : RunStore) (old : Run)
    (keyed : q.idempotency_key ≡ some key) (named : is_empty key ≡ false)
    (found : find_run_by_idempotency_key q.org_id (some key) s ≡ some old) where
  -- A retry of a job that is waiting, running or passed gives its run and changes nothing.
  pub enqueue-replay : may_replay old ≡ true → enqueue max_active q s ≡ (s, run old.id false)
  unfolding enqueue replayed
  enqueue-replay live =
      rw (keyed, enqueue, replayed) (rw named (rw (found, replayed) (rw live refl)))

  not_replayed : may_replay old ≡ false → replayed q.org_id q.idempotency_key s ≡ none
  unfolding replayed
  not_replayed dead = rw (keyed, replayed) (rw named (rw (found, replayed) (rw dead refl)))

  -- the unique index refuses the row
  refused : ((add_job q s).1 ≡ run old.id true) × ((add_job q s).0.runs ≡ s.runs)
  unfolding add_job record_run append_run_event
  refused = rw (keyed, add_job, record_run) (rw (found, record_run) (refl, refl))

  -- A retry of a job that failed or was cancelled, where the organization has room, reports that run as
  -- made, and leaves every run as it was: nothing is queued.
  pub enqueue-lost :
      may_replay old ≡ false
      → leb max_active (active_run_count q.org_id s) ≡ false
      → ((enqueue max_active q s).1 ≡ run old.id true) × ((enqueue max_active q s).0.runs ≡ s.runs)
  unfolding enqueue
  enqueue-lost dead room = rw (not_replayed dead, enqueue) (rw room refused)
