-- ===== src/Server/Jobs/Bounds.antt =====
-- The limit of active jobs (apiverity/server/jobs.py), with threads that interleave.
use api_verity_lab.Common.{
  ℕ, suc, ◌+◌, ◌≤◌, String, true, false, Option, List, [], ◌∷◌, ◌++◌, ◌==◌, ◌≡◌, refl, ap, arith,
  nat_ord, text_ord, ==_iff, keep, leb, All, Option-cases, inl, inr, length, if◌then◌else◌,
}
use api_verity_lab.Server.Rows.{first_where}
use api_verity_lab.Server.Runs.{
  Run, RunStore, counts, active_run_count, append_run_event, update_run, with_status, is_queued,
  with_worker, claim_next_run,
}
use api_verity_lab.Server.Jobs.{Request, add_job}
use api_verity_lab.Server.Jobs.Rows.{count-snoc, first_where_unique, update_where-count}
use api_verity_lab.Server.Jobs.Calls.{
  IsNumbered, update-IsNumbered, add_job-IsNumbered, record_run-cases,
}
use api_verity_lab.Server.Jobs.Threads.{
  Waiting, looked, allowed, is_active_status, insert_run, Step, look, room, full, insert, claim,
  settle, note, Reached, opened, after_step,
}

All-any : (P : Run → Type 0) (rows : List Run) → ((r : Run) → P r) → All P rows
All-any P [] h = tt
All-any P (r ∷ rows) h = (h r, All-any P rows h)

-- the threads of an organization that found room
allowed_for : ℕ → List Waiting → ℕ
allowed_for org_id [] = 0
allowed_for org_id (looked q ∷ rest) = allowed_for org_id rest
allowed_for org_id (allowed q ∷ rest) =
    (if q.org_id == org_id then 1 else 0) + allowed_for org_id rest

allowed_for-length : (o : ℕ) (waiting : List Waiting) → allowed_for o waiting ≤ length waiting
unfolding allowed_for
allowed_for-length o [] = omega arith
allowed_for-length o (looked q ∷ rest) = omega (arith, allowed_for-length o rest)
allowed_for-length o (allowed q ∷ rest) = ground (arith, allowed_for-length o rest)

allowed_for-middle :
    (o : ℕ) (before after : List Waiting) (t : Waiting)
    → allowed_for o (before ++ t ∷ after) ≡ allowed_for o (t ∷ []) + allowed_for o (before ++ after)
unfolding allowed_for
allowed_for-middle o [] after (looked q) = omega arith
allowed_for-middle o [] after (allowed q) = ground arith
allowed_for-middle o (looked q ∷ before) after t = allowed_for-middle o before after t
allowed_for-middle o (allowed q ∷ before) after t =
    omega (arith, allowed_for-middle o before after t)

length-middle :
    (before after : List Waiting) (t : Waiting)
    → length (before ++ t ∷ after) ≡ suc (length (before ++ after))
length-middle [] after t = refl
length-middle (u ∷ before) after t = ap suc (length-middle before after t)

settled-le :
    (o run_id : ℕ) (status : String) (result : Option String) (now : String) (s : RunStore)
    → is_active_status status ≡ false
    → active_run_count o (update_run run_id status result now s) ≤ active_run_count o s
unfolding update_run active_run_count
settled-le o run_id status result now s settled =
    update_where-count (counts o) (λ r. r.id == run_id) (with_status status result now) s.runs
      (All-any _ s.runs (λ q _ e. absurd (ground (arith, e, settled))))

module _ (org_id : ℕ) (worker now : String) (row : Run) where
  queued_counts :
      (o : ℕ) (rows : List Run)
      → All (λ q. (q.id == row.id) ≡ true → is_queued org_id q ≡ true) rows
      → All
          (λ q.
            (q.id == row.id) ≡ true
            → counts o (with_worker worker now q) ≡ true
            → counts o q ≡ true)
          rows
  queued_counts o [] h = tt
  queued_counts o (q ∷ rows) h = (λ same c. ground (arith, h.0 same, c), queued_counts o rows h.1)

claim-le :
    (o org_id : ℕ) (worker now ts : String) (s : RunStore)
    → IsNumbered s
    → let after = (claim_next_run org_id worker now ts s).0 in
      IsNumbered after × (active_run_count o after ≤ active_run_count o s)
unfolding claim_next_run active_run_count append_run_event
claim-le o org_id worker now ts s n = elim (Option-cases (first_where (is_queued org_id) s.runs)) [
  | inl e ↦ rw (e, claim_next_run) (n, omega arith)
  | inr (row, e) ↦
      let next = update-IsNumbered s (λ r. r.id == row.id) (with_worker worker now) (λ r. refl) n in
      let unique = first_where_unique (is_queued org_id) s.runs row n.distinct e in
      rw (e, claim_next_run)
        (
          record { distinct = next.distinct; below = next.below },
          update_where-count (counts o) (λ r. r.id == row.id) (with_worker worker now) s.runs
              (queued_counts org_id worker now row o s.runs unique),
        )
]

insert-IsNumbered : (q : Request) (s : RunStore) → IsNumbered s → IsNumbered (insert_run q s)
unfolding insert_run add_job append_run_event
insert-IsNumbered q s n =
    let next = add_job-IsNumbered q s n in record { distinct = next.distinct; below = next.below }

insert-le :
    (o : ℕ) (q : Request) (s : RunStore)
    → active_run_count o (insert_run q s) ≤ (if q.org_id == o then 1 else 0) + active_run_count o s
unfolding active_run_count insert_run add_job append_run_event
insert-le o q s = elim (record_run-cases q s) [
  | inl (e, _) ↦ rw e (omega arith)
  | inr (r, e, _, _, org, status) ↦
      rw e (ground (arith, count-snoc (counts o) s.runs r, org, status, ap (λ i. i == o) org))
]

settled-IsNumbered :
    (s : RunStore) (run_id : ℕ) (status : String) (result : Option String) (now : String)
    → IsNumbered s
    → IsNumbered (update_run run_id status result now s)
unfolding update_run
settled-IsNumbered s run_id status result now n =
    let next =
      update-IsNumbered s (λ r. r.id == run_id) (with_status status result now) (λ r. refl) n in
    record { distinct = next.distinct; below = next.below }

module _ (threads max_active : ℕ) where
  -- A thread that found room adds one for its own organization; the threads are few.
  allowed-le :
      (o : ℕ) (s : RunStore) (before after : List Waiting) (q : Request)
      → leb max_active (active_run_count q.org_id s) ≡ false
      → length (before ++ looked q ∷ after) ≤ suc threads
      → active_run_count o s + allowed_for o (before ++ looked q ∷ after) ≤ max_active + threads
      → active_run_count o s + allowed_for o (before ++ allowed q ∷ after) ≤ max_active + threads
  unfolding allowed_for
  allowed-le o s before after q room_left few h = ground (
    arith,
    allowed_for-middle o before after (looked q),
    allowed_for-middle o before after (allowed q),
    length-middle before after (looked q),
    allowed_for-length o (before ++ after),
    ==_iff q.org_id o,
    ap (λ i. active_run_count i s),
  )

  -- The active jobs of an organization, and its threads that found room, are together no more than
  -- the limit and the other threads.
  record IsBounded (s : RunStore) (waiting : List Waiting) : Type 0 where
    pub numbered : IsNumbered s
    pub few : length waiting ≤ suc threads
    pub bounded :
        (org_id : ℕ) → active_run_count org_id s + allowed_for org_id waiting ≤ max_active + threads

  step-IsBounded :
      {s t : RunStore} {waiting later : List Waiting}
      → Step (suc threads) max_active s waiting t later
      → IsBounded s waiting
      → IsBounded t later
  unfolding allowed_for
  step-IsBounded (look s waiting q some_left not_replayed) h = record {
    numbered = h.numbered;
    few = some_left;
    bounded = h.bounded;
  }
  step-IsBounded (room s before after q room_left) h = record {
    numbered = h.numbered;
    few = omega (
      arith,
      h.few,
      length-middle before after (looked q),
      length-middle before after (allowed q),
    );
    bounded = λ o. allowed-le o s before after q room_left h.few (h.bounded o);
  }
  step-IsBounded (full s before after q no_room) h = record {
    numbered = h.numbered;
    few = omega (arith, h.few, length-middle before after (looked q));
    bounded = λ o. omega (arith, h.bounded o, allowed_for-middle o before after (looked q));
  }
  step-IsBounded (insert s before after q) h = record {
    numbered = insert-IsNumbered q s h.numbered;
    few = omega (arith, h.few, length-middle before after (allowed q));
    bounded = λ o.
        omega (arith, h.bounded o, allowed_for-middle o before after (allowed q), insert-le o q s);
  }
  step-IsBounded (claim s waiting org_id worker now ts) h = record {
    numbered = (claim-le 0 org_id worker now ts s h.numbered).0;
    few = h.few;
    bounded = λ o. omega (arith, h.bounded o, (claim-le o org_id worker now ts s h.numbered).1);
  }
  step-IsBounded (settle s waiting run_id status result now settled) h = record {
    numbered = unfold update_run in settled-IsNumbered s run_id status result now h.numbered;
    few = h.few;
    bounded = λ o. omega (arith, h.bounded o, settled-le o run_id status result now s settled);
  }
  step-IsBounded (note s waiting run_id message pct ts) h = record {
    numbered =
        unfold append_run_event in
        record { distinct = h.numbered.distinct; below = h.numbered.below };
    few = h.few;
    bounded = λ o. unfold active_run_count in unfold append_run_event in h.bounded o;
  }

  Reached-IsBounded :
      {s : RunStore} {waiting : List Waiting}
      → Reached (suc threads) max_active s waiting
      → IsBounded s waiting
  unfolding allowed_for active_run_count keep
  Reached-IsBounded opened = record {
    numbered = record { distinct = tt; below = tt };
    few = omega arith;
    bounded = λ o. omega arith;
  }
  Reached-IsBounded (after_step before step) = step-IsBounded step (Reached-IsBounded before)

  pub active_run_count-le :
      (org_id : ℕ) {s : RunStore} {waiting : List Waiting}
      → Reached (suc threads) max_active s waiting
      → active_run_count org_id s ≤ max_active + threads
  active_run_count-le org_id reached = omega (arith, (Reached-IsBounded reached).bounded org_id)
