-- ===== src/Server/Jobs/Claims.antt =====
-- A job of the queue of apiverity/server/jobs.py goes to one worker.
use api_verity_lab.Common.{
  ℕ, ◌≤◌, String, Bool, true, false, none, some, List, [], ◌∷◌, ◌==◌, ◌≡◌, refl, sym, ap, ◌∙◌,
  subst, arith, nat_ord, text_ord, ==_iff, All, All-snoc, Bool-cases, Option-cases, inl, inr,
}
use api_verity_lab.Server.Rows.{first_where, update_where}
use api_verity_lab.Server.Runs.{
  Run, RunStore, no_runs, get_run, append_run_event, update_run, with_status, is_queued,
  with_worker, claim_next_run,
}
use api_verity_lab.Server.Jobs.{
  Request, replayed, add_job, enqueue, claim, progress, complete, outcome,
}
use api_verity_lab.Server.Jobs.Rows.{first_where-All}
use api_verity_lab.Server.Jobs.Calls.{
  Op, enqueue_job, claim_job, report, finish, cancel_job, perform, perform_all,
  perform_all-IsNumbered, record_run-cases, cancel-cases,
}

-- the run is in the store, and is not queued
pub record Taken (k : ℕ) (s : RunStore) : Type 0 where
  pub known : k ≤ s.last_run
  pub moved : All (λ q. q.id ≡ k → (q.status == "queued") ≡ false) s.runs

module _ (k : ℕ) where
  update-moved :
      (test : Run → Bool) (change : Run → Run) (rows : List Run)
      → ((r : Run) → (change r).id ≡ r.id)
      → ((r : Run) → ((change r).status == "queued") ≡ false)
      → All (λ q. q.id ≡ k → (q.status == "queued") ≡ false) rows
      → All (λ q. q.id ≡ k → (q.status == "queued") ≡ false) (update_where test change rows)
  unfolding update_where
  update-moved test change [] same_id settled h = tt
  update-moved test change (r ∷ rows) same_id settled h = (
    λ e. ground (arith, h.0, settled r, same_id r, e),
    update-moved test change rows same_id settled h.1,
  )

  -- the rows with the id, after the claim of the run
  claim-moved :
      (worker now : String) (rows : List Run)
      → All
          (λ q. q.id ≡ k → (q.status == "queued") ≡ false)
          (update_where (λ r. r.id == k) (with_worker worker now) rows)
  unfolding update_where
  claim-moved worker now [] = tt
  claim-moved worker now (r ∷ rows) = (
    λ e. elim (Bool-cases (r.id == k)) [
      | inl same ↦ rw same refl
      | inr other ↦ absurd (ground (arith, rw other at e, other, ==_iff r.id k))
    ],
    claim-moved worker now rows,
  )

  outcome-settled : (passed : Bool) → (outcome passed == "queued") ≡ false
  outcome-settled true = refl
  outcome-settled false = refl

  add_job-Taken : (q : Request) (s : RunStore) → Taken k s → Taken k (add_job q s).0
  add_job-Taken q s h = elim (record_run-cases q s) [
    | inl (e, last) ↦ record { known = rw last h.known; moved = rw e h.moved }
    | inr (r, e, last, id, _, _) ↦ record {
      known = rw last (omega (arith, h.known));
      moved =
          rw e (All-snoc _ s.runs r h.moved (λ same. absurd (omega (arith, same, id, h.known))));
    }
  ]

  perform-Taken :
      (max_active : ℕ) (op : Op) (s : RunStore) → Taken k s → Taken k (perform max_active op s)
  unfolding perform enqueue claim claim_next_run progress append_run_event complete update_run
  perform-Taken max_active (enqueue_job q) s h =
      elim (Option-cases (replayed q.org_id q.idempotency_key s)) [
        | inr (r, e) ↦ rw (e, perform) h
        | inl e ↦ rw (e, perform) (ground (arith, add_job-Taken q s h, h))
      ]
  perform-Taken max_active (claim_job o worker now ts) s h =
      elim (Option-cases (first_where (is_queued o) s.runs)) [
        | inl e ↦ rw (e, perform) h
        | inr (row, e) ↦
            rw (e, perform)
              (record {
                known = h.known;
                moved =
                    update-moved (λ r. r.id == row.id) (with_worker worker now) s.runs (λ r. refl)
                      (λ r. refl) h.moved;
              })
      ]
  perform-Taken max_active (report run_id message pct ts) s h = record {
    known = h.known;
    moved = h.moved;
  }
  perform-Taken max_active (finish run_id result passed now ts) s h = record {
    known = h.known;
    moved =
        update-moved (λ r. r.id == run_id) (with_status (outcome passed) result now) s.runs
          (λ r. refl) (λ r. outcome-settled passed) h.moved;
  }
  perform-Taken max_active (cancel_job run_id now ts) s h =
      let (last, cases) = cancel-cases run_id now ts s in
      elim cases [
        | inl e ↦ record { known = rw last h.known; moved = rw e h.moved }
        | inr e ↦ record {
          known = rw last h.known;
          moved = rw e (
              update-moved (λ r. r.id == run_id) (with_status "cancelled" none now) s.runs
                (λ r. refl) (λ r. refl) h.moved);
        }
      ]

  perform_all-Taken :
      (max_active : ℕ) (ops : List Op) (s : RunStore)
      → Taken k s
      → Taken k (perform_all max_active ops s)
  unfolding perform_all
  perform_all-Taken max_active [] s h = h
  perform_all-Taken max_active (op ∷ rest) s h =
      perform_all-Taken max_active rest (perform max_active op s) (perform-Taken max_active op s h)

pub get_run-id :
    (k : ℕ) (rows : List Run) (r : Run) → first_where (λ q. q.id == k) rows ≡ some r → r.id ≡ k
unfolding first_where
get_run-id k [] r e = absurd (cc e)
get_run-id k (q ∷ rows) r e = ground (arith, e, ==_iff q.id k, get_run-id k rows r)

-- a claim that returns a run found it among the queued ones
claim_lem :
    (o : ℕ) (worker now ts : String) (s t : RunStore) (r : Run)
    → claim o worker now ts s ≡ (t, some r)
    → (row : Run) × (first_where (is_queued o) s.runs ≡ some row)
      × (r.id ≡ row.id)
      × (t.runs ≡ update_where (λ q. q.id == row.id) (with_worker worker now) s.runs)
      × (t.last_run ≡ s.last_run)
unfolding claim claim_next_run append_run_event get_run
claim_lem o worker now ts s t r h = elim (Option-cases (first_where (is_queued o) s.runs)) [
  | inl e ↦ absurd (ground (arith, h, e))
  | inr (row, e) ↦
      let h' = rw (e, claim, claim_next_run) at h in
      (
        row,
        e,
        get_run-id row.id _ r (ap (λ p. p.1) h'),
        sym (ap (λ p. p.0.runs) h'),
        sym (ap (λ p. p.0.last_run) h'),
      )
]

-- A run that a claim returned is returned by no later claim, whatever calls of the queue come between
-- the two, each ending before the next begins.
pub claim-once :
    (max_active : ℕ) (first between : List Op) (o p : ℕ) (worker now ts worker' now' ts' : String)
    (s t : RunStore) (r q : Run)
    → claim o worker now ts (perform_all max_active first no_runs) ≡ (s, some r)
    → claim p worker' now' ts' (perform_all max_active between s) ≡ (t, some q)
    → ¬ q.id ≡ r.id
claim-once max_active first between o p worker now ts worker' now' ts' s t r q h k same =
    let start = perform_all max_active first no_runs in
    let numbered =
      perform_all-IsNumbered max_active first no_runs (record { distinct = tt; below = tt }) in
    let (row, e, id, rows, last) = claim_lem o worker now ts start s r h in
    let taken : Taken row.id s = record {
      known =
          subst (λ n. row.id ≤ n) (sym last)
            (first_where-All (λ x. x.id ≤ start.last_run) (is_queued o) start.runs row
              numbered.below e).0;
      moved =
          subst (All (λ q. q.id ≡ row.id → (q.status == "queued") ≡ false)) (sym rows)
            (claim-moved row.id worker now start.runs);
    } in
    let after = perform_all-Taken row.id max_active between s taken in
    let (row', e', id', _, _) =
      claim_lem p worker' now' ts' (perform_all max_active between s) t q k in
    let (settled, queued) =
      first_where-All (λ x. x.id ≡ row.id → (x.status == "queued") ≡ false) (is_queued p)
        (perform_all max_active between s).runs row' after.moved e' in
    ground (arith, queued, settled (sym id' ∙ same ∙ id))
