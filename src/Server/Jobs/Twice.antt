-- ===== src/Server/Jobs/Twice.antt =====
-- A request that is sent twice with one idempotency key (apiverity/server/jobs.py).
use api_verity_lab.Common.{
  ℕ, ◌+◌, String, true, false, none, some, [], ◌∷◌, ◌++◌, ◌≡◌, refl, sym, ap, subst, arith, ==_refl,
  nat_ord, text_ord, option_ord, leb,
}
use api_verity_lab.Common.Text.{is_empty}
use api_verity_lab.Server.Rows.{first_where, first_where-snoc}
use api_verity_lab.Server.Runs.{
  Run, RunStore, has_key, queued_run, active_run_count, append_run_event, record_run,
  find_run_by_idempotency_key,
}
use api_verity_lab.Server.Jobs.{run, Request, replayed, add_job, enqueue}
use api_verity_lab.Server.Jobs.Retries.{enqueue-replay}

module _ (max_active : ℕ) (q : Request) (key : String) (s : RunStore)
    (keyed : q.idempotency_key ≡ some key) (named : is_empty key ≡ false)
    (unused : find_run_by_idempotency_key q.org_id (some key) s ≡ none)
    (room : leb max_active (active_run_count q.org_id s) ≡ false) where
  -- the row that is made
  abbrev made : Run
  made =
      queued_run (s.last_run + 1) q.org_id q.kind q.requested_by q.verification_for q.environment
        (some key) q.now

  made_row :
      ((add_job q s).1 ≡ run (s.last_run + 1) true) × ((add_job q s).0.runs ≡ s.runs ++ made ∷ [])
  unfolding add_job record_run append_run_event queued_run
  made_row =
      rw (keyed, add_job, record_run)
        (rw (unused, record_run)
          (
            refl,
            ap
                (λ k.
                  s.runs
                  ++ queued_run (s.last_run + 1) q.org_id q.kind q.requested_by q.verification_for
                      q.environment k q.now
                    ∷ [])
                keyed,
          ))

  enqueue-made :
      ((enqueue max_active q s).1 ≡ run (s.last_run + 1) true)
      × ((enqueue max_active q s).0.runs ≡ s.runs ++ made ∷ [])
  unfolding enqueue replayed
  enqueue-made = rw (keyed, enqueue, replayed) (rw named (rw (unused, replayed) (rw room made_row)))

  made-has_key : has_key q.org_id (some key) made ≡ true
  unfolding queued_run
  made-has_key = ground (arith, ==_refl q.org_id, ==_refl (some key))

  made-found :
      find_run_by_idempotency_key q.org_id (some key) (enqueue max_active q s).0 ≡ some made
  unfolding find_run_by_idempotency_key
  made-found =
      subst (λ rows. first_where (has_key q.org_id (some key)) rows ≡ some made)
        (sym enqueue-made.1)
        (first_where-snoc (has_key q.org_id (some key)) s.runs made unused made-has_key)

  -- A request with a key that the organization has not used, where it has room, makes a run, and a
  -- second request of the organization with that key, whatever else it asks for, gives the same run
  -- as one that was there, and changes nothing.
  pub enqueue-twice :
      (r : Request)
      → r.org_id ≡ q.org_id
      → r.idempotency_key ≡ some key
      → ((enqueue max_active q s).1 ≡ run (s.last_run + 1) true)
        × (enqueue max_active r (enqueue max_active q s).0
            ≡ ((enqueue max_active q s).0, run (s.last_run + 1) false))
  unfolding queued_run
  enqueue-twice r same again = (
    enqueue-made.0,
    enqueue-replay max_active r key (enqueue max_active q s).0 made again named
        (subst
          (λ o. find_run_by_idempotency_key o (some key) (enqueue max_active q s).0 ≡ some made)
          (sym same) made-found)
        refl,
  )
