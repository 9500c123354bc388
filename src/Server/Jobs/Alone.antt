-- ===== src/Server/Jobs/Alone.antt =====
-- The calls of the queue (apiverity/server/jobs.py) that do not overlap are runs of its statements.
use api_verity_lab.Common.{
  ℕ, ◌≤◌, Bool, true, false, none, List, [], ◌∷◌, ◌≡◌, refl, arith, leb, Option-cases, Bool-cases,
  inl, inr,
}
use api_verity_lab.Server.Runs.{RunStore, no_runs, get_run, is_active, active_run_count, cancel_run}
use api_verity_lab.Server.Jobs.{
  Request, replayed, add_job, enqueue, claim, progress, complete, cancel, outcome,
}
use api_verity_lab.Server.Jobs.Calls.{
  Op, enqueue_job, claim_job, report, finish, cancel_job, perform, perform_all,
}
use api_verity_lab.Server.Jobs.Threads.{
  looked, is_active_status, insert_run, Step, look, room, full, insert, settle, note, Reached,
  opened, after_step,
}
use api_verity_lab.Server.Jobs.Bounds.{active_run_count-le}
use api_verity_lab.Server.Jobs.Threads

outcome-settled : (passed : Bool) → is_active_status (outcome passed) ≡ false
outcome-settled true = refl
outcome-settled false = refl

module _ (max_active : ℕ) where
  -- reached by one thread that has returned
  abbrev IsReached : RunStore → Type 0
  IsReached s = Reached 1 max_active s []

  enqueue-IsReached :
      (q : Request) (s : RunStore) → IsReached s → IsReached (enqueue max_active q s).0
  unfolding enqueue add_job insert_run
  enqueue-IsReached q s h = elim (Option-cases (replayed q.org_id q.idempotency_key s)) [
    | inr (r, e) ↦ rw (e, enqueue) h
    | inl e ↦
        let start = after_step h (look s [] q (omega arith) e) in
        elim (Bool-cases (leb max_active (active_run_count q.org_id s))) [
          | inl over ↦ rw (e, enqueue) (rw over (after_step start (full s [] [] q over)))
          | inr under ↦
              let allowed_in = after_step start (room s [] [] q under) in
              rw (e, enqueue)
                (rw under
                  (after_step (after_step allowed_in (insert s [] [] q)) (note _ [] _ _ _ _)))
        ]
  ]

  cancel-IsReached :
      (run_id : ℕ) (now ts : _) (s : RunStore) → IsReached s → IsReached (cancel run_id now ts s).0
  unfolding cancel cancel_run
  cancel-IsReached run_id now ts s h = elim (Option-cases (get_run run_id s)) [
    | inl e ↦ rw (e, cancel, cancel_run) h
    | inr (r, e) ↦ elim (Bool-cases (is_active r)) [
      | inl active ↦
          rw (e, cancel, cancel_run)
            (rw active (
              after_step (after_step h (settle s [] run_id "cancelled" none now refl))
                (note _ [] _ _ _ _)))
      | inr settled ↦ rw (e, cancel, cancel_run) (rw settled h)
    ]
  ]

  perform-IsReached : (op : Op) (s : RunStore) → IsReached s → IsReached (perform max_active op s)
  unfolding perform claim progress complete
  perform-IsReached (enqueue_job q) s h = enqueue-IsReached q s h
  perform-IsReached (claim_job o worker now ts) s h =
      after_step h (Threads.claim s [] o worker now ts)
  perform-IsReached (report run_id message pct ts) s h =
      after_step h (note s [] run_id message pct ts)
  perform-IsReached (finish run_id result passed now ts) s h =
      after_step
        (after_step h (settle s [] run_id (outcome passed) result now (outcome-settled passed)))
        (note _ [] _ _ _ _)
  perform-IsReached (cancel_job run_id now ts) s h = cancel-IsReached run_id now ts s h

  perform_all-IsReached :
      (ops : List Op) (s : RunStore) → IsReached s → IsReached (perform_all max_active ops s)
  unfolding perform_all
  perform_all-IsReached [] s h = h
  perform_all-IsReached (op ∷ rest) s h =
      perform_all-IsReached rest (perform max_active op s) (perform-IsReached op s h)

  -- If every call of the queue ends before the next begins, then an organization never has more than
  -- max_active_per_org jobs queued or running, whatever the calls are and whatever ids they name.
  pub active_run_count-perform_all :
      (org_id : ℕ) (ops : List Op)
      → active_run_count org_id (perform_all max_active ops no_runs) ≤ max_active
  active_run_count-perform_all org_id ops =
      omega
        (arith, active_run_count-le 0 max_active org_id (perform_all-IsReached ops no_runs opened))
