-- ===== src/Server/Jobs/Drained.antt =====
-- The queue of apiverity/server/jobs.py gives out its jobs, oldest first, until none waits.
use mathlib.Core.List.{map}
use api_verity_lab.Common.{
  ℕ, ◌≤◌, String, Bool, false, Option, none, some, List, [], ◌∷◌, ◌++◌, ◌==◌, ◌≡◌, refl, sym, ap,
  ◌∙◌, subst, arith, nat_ord, text_ord, ==_iff, ==_refl, keep, length, All, Bool-cases,
  Option-cases, inl, inr,
}
use api_verity_lab.Server.Rows.{first_where, update_where}
use api_verity_lab.Server.Runs.{
  Run, RunStore, no_runs, get_run, append_run_event, is_queued, with_worker, claim_next_run,
}
use api_verity_lab.Server.Jobs.{claim}
use api_verity_lab.Server.Jobs.Rows.{AllDistinct, first_where-All}
use api_verity_lab.Server.Jobs.Calls.{
  Op, claim_job, perform, perform_all, IsNumbered, perform-IsNumbered, perform_all-IsNumbered,
}
use api_verity_lab.Server.Jobs.Claims.{get_run-id}

-- a worker that claims a job, and the times that the store reads
pub record Visit : Type 0 where
  pub worker_name : String
  pub now : String
  pub ts : String

abbrev id_of : Option Run → List ℕ
id_of none = []
id_of (some r) = r.id ∷ []

-- the ids of the runs that the visits get
unfoldable pub claim_all : ℕ → List Visit → RunStore → List ℕ
claim_all o [] s = []
claim_all o (v ∷ rest) s =
    id_of (claim o v.worker_name v.now v.ts s).1
    ++ claim_all o rest (claim o v.worker_name v.now v.ts s).0

update_where-same :
    (k : ℕ) (change : Run → Run) (rows : List Run)
    → All (λ r. ¬ k ≡ r.id) rows
    → update_where (λ r. r.id == k) change rows ≡ rows
unfolding update_where
update_where-same k change [] h = refl
update_where-same k change (r ∷ rows) h =
    ground (arith, ==_iff r.id k, update_where-same k change rows h.1, h.0)

keep-first_none :
    (test : Run → Bool) (rows : List Run) → first_where test rows ≡ none → keep test rows ≡ []
unfolding keep first_where
keep-first_none test [] e = refl
keep-first_none test (x ∷ rows) e = ground (arith, e, keep-first_none test rows)

module _ (test : Run → Bool) (change : Run → Run)
    (settles : (r : Run) → test (change r) ≡ false) where
  -- the one that the query finds is the first, and the others stay
  keep-first :
      (rows : List Run) (r : Run)
      → AllDistinct rows
      → first_where test rows ≡ some r
      → keep test rows ≡ r ∷ keep test (update_where (λ q. q.id == r.id) change rows)
  unfolding keep first_where update_where
  keep-first [] r h e = absurd (cc e)
  keep-first (x ∷ rows) r h e = elim (Bool-cases (test x)) [
    | inl t ↦
        let same : x ≡ r = ground (arith, e, t) in
        subst
          (λ y.
            keep test (x ∷ rows)
            ≡ y ∷ keep test (update_where (λ q. q.id == y.id) change (x ∷ rows)))
          same
          (rw t
            (rw (==_refl x.id) (rw (settles x) (rw (update_where-same x.id change rows h.0) refl))))
    | inr t ↦
        let e' : first_where test rows ≡ some r = ground (arith, e, t) in
        let apart = (first_where-All (λ q. ¬ x.id ≡ q.id) test rows r h.0 e').0 in
        ground (arith, t, apart, ==_iff x.id r.id, keep-first rows r h.1 e')
  ]

-- the updated row is found by its id
found_again :
    (test : Run → Bool) (change : Run → Run) (rows : List Run) (row : Run)
    → ((r : Run) → (change r).id ≡ r.id)
    → first_where test rows ≡ some row
    → (r : Run) × (first_where
          (λ q. q.id == row.id)
          (update_where (λ q. q.id == row.id) change rows)
        ≡ some r)
unfolding first_where update_where
found_again test change [] row same_id e = absurd (cc e)
found_again test change (x ∷ rows) row same_id e = elim (Bool-cases (x.id == row.id)) [
  | inl same ↦ (change x, rw same (rw (same_id x) (rw same refl)))
  | inr other ↦
      let t : test x ≡ false = ground (arith, e, other, ==_iff x.id row.id) in
      let (r, h) = found_again test change rows row same_id (rw t at e) in
      (r, rw other (rw other h))
]

module _ (o : ℕ) (v : Visit) (s : RunStore) where
  claim-none :
      first_where (is_queued o) s.runs ≡ none → claim o v.worker_name v.now v.ts s ≡ (s, none)
  unfolding claim claim_next_run
  claim-none e = rw (e, claim_next_run) refl

  claim-some :
      (row : Run)
      → first_where (is_queued o) s.runs ≡ some row
      → (id_of (claim o v.worker_name v.now v.ts s).1 ≡ row.id ∷ [])
        × ((claim o v.worker_name v.now v.ts s).0.runs
            ≡ update_where (λ q. q.id == row.id) (with_worker v.worker_name v.now) s.runs)
  unfolding claim claim_next_run append_run_event get_run
  claim-some row e =
      let (r, h) =
        found_again (is_queued o) (with_worker v.worker_name v.now) s.runs row (λ q. refl) e in
      (
        rw (e, claim, claim_next_run) (rw h (ap (λ k. k ∷ []) (get_run-id row.id _ r h))),
        rw (e, claim, claim_next_run) refl,
      )

map_none : (rows : List Run) → length rows ≤ 0 → [] ≡ map (λ r. r.id) rows
map_none [] h = refl
map_none (r ∷ rows) h = absurd (omega (arith, h))

not_queued : (o : ℕ) (v : Visit) (r : Run) → is_queued o (with_worker v.worker_name v.now r) ≡ false
not_queued o v r = ground arith

claim-IsNumbered :
    (o : ℕ) (v : Visit) (s : RunStore)
    → IsNumbered s
    → IsNumbered (claim o v.worker_name v.now v.ts s).0
claim-IsNumbered o v s n =
    unfold perform in perform-IsNumbered 0 (claim_job o v.worker_name v.now v.ts) s n

claim_all-step :
    (o : ℕ) (visits : List Visit) (s : RunStore)
    → IsNumbered s
    → length (keep (is_queued o) s.runs) ≤ length visits
    → claim_all o visits s ≡ map (λ r. r.id) (keep (is_queued o) s.runs)
unfolding claim_all
claim_all-step o [] s n enough = map_none (keep (is_queued o) s.runs) enough
claim_all-step o (v ∷ rest) s n enough = elim (Option-cases (first_where (is_queued o) s.runs)) [
  | inl e ↦
      let empty = keep-first_none (is_queued o) s.runs e in
      rw (claim-none o v s e) (claim_all-step o rest s n (omega (arith, ap length empty)))
  | inr (row, e) ↦
      let (got, rows) = claim-some o v s row e in
      let next = (claim o v.worker_name v.now v.ts s).0 in
      let first : keep (is_queued o) s.runs ≡ row ∷ keep (is_queued o) next.runs =
        keep-first (is_queued o) (with_worker v.worker_name v.now) (not_queued o v) s.runs row
          n.distinct e
        ∙ ap (λ rs. row ∷ keep (is_queued o) rs) (sym rows) in
      rw got (
        rw first (
          ap (λ ids. row.id ∷ ids)
            (claim_all-step o rest next (claim-IsNumbered o v s n)
              (omega (arith, ap length first, enough)))))
]

-- After any calls of the queue that do not overlap, workers that claim at least as often as jobs of an organization are
-- queued get all of these, the oldest first.
pub claim_all-queued :
    (max_active o : ℕ) (ops : List Op) (visits : List Visit)
    → let s = perform_all max_active ops no_runs in
      length (keep (is_queued o) s.runs) ≤ length visits
      → claim_all o visits s ≡ map (λ r. r.id) (keep (is_queued o) s.runs)
claim_all-queued max_active o ops visits enough =
    claim_all-step o visits (perform_all max_active ops no_runs)
      (perform_all-IsNumbered max_active ops no_runs (record { distinct = tt; below = tt })) enough
