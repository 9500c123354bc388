-- ===== src/Server/Jobs/Calls.antt =====
-- Runs of the queue of apiverity/server/jobs.py: its calls in any order. The ids of the rows stay
-- distinct.
use api_verity_lab.Common.{
  ℕ, ◌+◌, ◌≤◌, String, Bool, Option, none, List, [], ◌∷◌, ◌++◌, ◌==◌, ◌≡◌, refl, arith, nat_ord,
  text_ord, leb, All, All-snoc, Bool-cases, Option-cases, inl, inr, ◌⊎◌,
}
use api_verity_lab.Server.Rows.{first_where, update_where}
use api_verity_lab.Server.Runs.{
  Run, RunStore, get_run, is_active, active_run_count, append_run_event, record_run, queued_run,
  update_run, with_status, cancel_run, find_run_by_idempotency_key, is_queued, with_worker,
  claim_next_run,
}
use api_verity_lab.Server.Jobs.{
  Request, replayed, add_job, enqueue, claim, progress, complete, cancel, outcome,
}
use api_verity_lab.Server.Jobs.Rows.{
  AllDistinct, AllDistinct-snoc, All_below-suc, update_where-AllDistinct, update_where-All_below,
}

-- A call of the queue, with its arguments and the times that it reads.
pub data Op : Type 0 where
  enqueue_job : Request → Op
  claim_job : (org_id : ℕ) (worker_name now ts : String) → Op
  report : (run_id : ℕ) (message : String) (pct : Option ℕ) (ts : String) → Op
  finish : (run_id : ℕ) (result : Option String) (passed : Bool) (now ts : String) → Op
  cancel_job : (run_id : ℕ) (now ts : String) → Op

unfoldable pub perform : ℕ → Op → RunStore → RunStore
perform max_active (enqueue_job q) s = (enqueue max_active q s).0
perform max_active (claim_job o worker now ts) s = (claim o worker now ts s).0
perform max_active (report run_id message pct ts) s = progress run_id message pct ts s
perform max_active (finish run_id result passed now ts) s = complete run_id result passed now ts s
perform max_active (cancel_job run_id now ts) s = (cancel run_id now ts s).0

unfoldable pub perform_all : ℕ → List Op → RunStore → RunStore
perform_all max_active [] s = s
perform_all max_active (op ∷ rest) s = perform_all max_active rest (perform max_active op s)

pub record IsNumbered (s : RunStore) : Type 0 where
  pub distinct : AllDistinct s.runs
  pub below : All (λ r. r.id ≤ s.last_run) s.runs

pub update-IsNumbered :
    (s : RunStore) (test : Run → Bool) (change : Run → Run)
    → ((r : Run) → (change r).id ≡ r.id)
    → IsNumbered s
    → IsNumbered (record s { runs = update_where test change s.runs })
update-IsNumbered s test change same_id h = record {
  distinct = update_where-AllDistinct test change same_id s.runs h.distinct;
  below = update_where-All_below test change same_id s.last_run s.runs h.below;
}

-- what record_run does to the rows
pub record_run-cases :
    (q : Request) (s : RunStore)
    → let s' = (add_job q s).0 in
      ((s'.runs ≡ s.runs) × (s'.last_run ≡ s.last_run))
      ⊎ ((r : Run) × (s'.runs ≡ s.runs ++ r ∷ [])
          × (s'.last_run ≡ s.last_run + 1)
          × (r.id ≡ s.last_run + 1)
          × (r.org_id ≡ q.org_id)
          × (r.status ≡ "queued"))
unfolding add_job record_run append_run_event queued_run
record_run-cases q s =
    elim (Option-cases (find_run_by_idempotency_key q.org_id q.idempotency_key s)) [
      | inl e ↦ inr (
        queued_run (s.last_run + 1) q.org_id q.kind q.requested_by q.verification_for q.environment
            q.idempotency_key q.now,
        rw (e, record_run, queued_run) refl,
        rw (e, record_run) refl,
        refl,
        refl,
        refl,
      )
      | inr (old, e) ↦ inl (rw (e, record_run) refl, rw (e, record_run) refl)
    ]

pub add_job-IsNumbered : (q : Request) (s : RunStore) → IsNumbered s → IsNumbered (add_job q s).0
add_job-IsNumbered q s h = elim (record_run-cases q s) [
  | inl (e, last) ↦ record { distinct = rw e h.distinct; below = rw (e, last) h.below }
  | inr (r, e, last, id, _, _) ↦ record {
    distinct = rw e (AllDistinct-snoc s.runs r s.last_run h.distinct h.below (omega (arith, id)));
    below =
        rw (e, last)
          (All-snoc (λ q. q.id ≤ s.last_run + 1) s.runs r (All_below-suc s.last_run s.runs h.below)
            (omega (arith, id)));
  }
]

-- A cancellation leaves the rows or updates those of the run.
pub cancel-cases :
    (run_id : ℕ) (now ts : String) (s : RunStore)
    → let s' = (cancel run_id now ts s).0 in
      (s'.last_run ≡ s.last_run)
      × ((s'.runs ≡ s.runs) ⊎ (s'.runs ≡ (update_run run_id "cancelled" none now s).runs))
unfolding cancel cancel_run append_run_event update_run
cancel-cases run_id now ts s = elim (Option-cases (get_run run_id s)) [
  | inl e ↦ rw (e, cancel, cancel_run) (refl, inl refl)
  | inr (r, e) ↦ elim (Bool-cases (is_active r)) [
    | inl active ↦ rw (e, cancel, cancel_run) (rw active (refl, inr refl))
    | inr settled ↦ rw (e, cancel, cancel_run) (rw settled (refl, inl refl))
  ]
]

module _ (max_active : ℕ) where
  pub perform-IsNumbered :
      (op : Op) (s : RunStore) → IsNumbered s → IsNumbered (perform max_active op s)
  unfolding perform enqueue claim claim_next_run progress append_run_event complete update_run
  perform-IsNumbered (enqueue_job q) s h =
      elim (Option-cases (replayed q.org_id q.idempotency_key s)) [
        | inr (r, e) ↦ rw (e, perform) h
        | inl e ↦ elim (Bool-cases (leb max_active (active_run_count q.org_id s))) [
          | inl full ↦ rw (e, perform) (rw full h)
          | inr room ↦ rw (e, perform) (rw room (add_job-IsNumbered q s h))
        ]
      ]
  perform-IsNumbered (claim_job o worker now ts) s h =
      elim (Option-cases (first_where (is_queued o) s.runs)) [
        | inl e ↦ rw (e, perform) h
        | inr (row, e) ↦
            let next =
              update-IsNumbered s (λ r. r.id == row.id) (with_worker worker now) (λ r. refl) h in
            rw (e, perform) (record { distinct = next.distinct; below = next.below })
      ]
  perform-IsNumbered (report run_id message pct ts) s h = record {
    distinct = h.distinct;
    below = h.below;
  }
  perform-IsNumbered (finish run_id result passed now ts) s h =
      let next =
        update-IsNumbered s (λ r. r.id == run_id) (with_status (outcome passed) result now)
          (λ r. refl) h in
      record { distinct = next.distinct; below = next.below }
  perform-IsNumbered (cancel_job run_id now ts) s h =
      let (last, cases) = cancel-cases run_id now ts s in
      let next =
        update-IsNumbered s (λ r. r.id == run_id) (with_status "cancelled" none now) (λ r. refl)
          h in
      elim cases [
        | inl e ↦ record { distinct = rw e h.distinct; below = rw (e, last) h.below }
        | inr e ↦ record { distinct = rw e next.distinct; below = rw (e, last) next.below }
      ]

  pub perform_all-IsNumbered :
      (ops : List Op) (s : RunStore) → IsNumbered s → IsNumbered (perform_all max_active ops s)
  unfolding perform_all
  perform_all-IsNumbered [] s n = n
  perform_all-IsNumbered (op ∷ rest) s n =
      perform_all-IsNumbered rest (perform max_active op s) (perform-IsNumbered op s n)
