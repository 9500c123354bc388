-- ===== src/Tests/Jobs.antt =====
-- The queue of apiverity/server/jobs.py on a few calls.
use api_verity_lab.Common.{
  ◌≤◌, String, true, false, Option, none, some, List, [], ◌∷◌, ◌≡◌, refl, ap, arith, length, map,
  keep, nat_ord, text_ord, option_ord, leb,
}
use api_verity_lab.Common.Text.{is_empty}
use api_verity_lab.Server.Rows.{first_where, update_where}
use api_verity_lab.Server.Runs.{
  Run, RunStore, no_runs, get_run, active_run_count, append_run_event, record_run, queued_run,
  update_run, cancel_run, is_queued, find_run_by_idempotency_key, claim_next_run,
}
use api_verity_lab.Server.Jobs.{run, Request, may_replay, replayed, add_job, enqueue, claim, cancel}
use api_verity_lab.Server.Jobs.Calls.{Op, enqueue_job, cancel_job, perform, perform_all}
use api_verity_lab.Server.Jobs.Threads.{insert_run}
use api_verity_lab.Server.Jobs.Alone.{active_run_count-perform_all}
use api_verity_lab.Server.Jobs.Claims.{claim-once}
use api_verity_lab.Server.Jobs.Drained.{Visit, claim_all, claim_all-queued}
use api_verity_lab.Server.Jobs.Retries.{enqueue-lost}
use api_verity_lab.Server.Jobs.Twice.{enqueue-twice}

abbrev request : String → Request
request key = record {
  org_id = 1;
  kind = "diff";
  requested_by = "ann";
  verification_for = none;
  environment = none;
  idempotency_key = some key;
  now = "10:00";
  ts = "10:00";
}

abbrev two_jobs : List Op
two_jobs = enqueue_job (request "a") ∷ enqueue_job (request "b") ∷ enqueue_job (request "c") ∷ []

abbrev store : RunStore
store = perform_all 2 two_jobs no_runs

third_refused : active_run_count 1 store ≡ 2
unfolding perform_all perform enqueue replayed add_job record_run append_run_event active_run_count
    first_where find_run_by_idempotency_key keep is_empty queued_run
third_refused = refl

-- Two threads count the jobs before either inserts one.
abbrev raced : RunStore
raced = insert_run (request "b") (insert_run (request "a") no_runs)

-- The limit is one job, and two are active.
race_count : active_run_count 1 raced ≡ 2
unfolding insert_run record_run find_run_by_idempotency_key first_where queued_run active_run_count
    keep
race_count = refl

active_run_count-perform_all_example : active_run_count 1 (perform_all 2 two_jobs no_runs) ≤ 2
active_run_count-perform_all_example = active_run_count-perform_all 2 1 two_jobs

enqueue-twice_example :
    ((enqueue 2 (request "a") no_runs).1 ≡ run 1 true)
    × (enqueue 2 (request "a") (enqueue 2 (request "a") no_runs).0
        ≡ ((enqueue 2 (request "a") no_runs).0, run 1 false))
enqueue-twice_example =
    enqueue-twice 2 (request "a") "a" no_runs refl (unfold is_empty in refl)
      (unfold find_run_by_idempotency_key in unfold first_where in refl)
      (unfold active_run_count in unfold keep in refl) (request "a") refl refl

abbrev claimed : RunStore × Option Run
claimed = claim 1 "w1" "10:01" "10:01" store

abbrev claimed_again : RunStore × Option Run
claimed_again = claim 1 "w2" "10:02" "10:02" (perform_all 2 [] claimed.0)

-- the run that a claim gave, or one that is no run
abbrev run_of : Option Run → Run
run_of (some r) = r
run_of none = queued_run 0 0 "" "" none none none ""

claimed_first : claimed.1 ≡ some (run_of claimed.1)
unfolding perform_all perform enqueue replayed add_job record_run append_run_event active_run_count
    first_where find_run_by_idempotency_key keep is_empty queued_run claim claim_next_run
    update_where get_run
claimed_first = refl

claimed_second : claimed_again.1 ≡ some (run_of claimed_again.1)
unfolding perform_all perform enqueue replayed add_job record_run append_run_event active_run_count
    first_where find_run_by_idempotency_key keep is_empty queued_run claim claim_next_run
    update_where get_run
claimed_second = refl

claim-once_example : ¬ (run_of claimed_again.1).id ≡ (run_of claimed.1).id
claim-once_example =
    claim-once 2 two_jobs [] 1 1 "w1" "10:01" "10:01" "w2" "10:02" "10:02" claimed.0 claimed_again.0
      (run_of claimed.1) (run_of claimed_again.1) (ap (λ r. (claimed.0, r)) claimed_first)
      (ap (λ r. (claimed_again.0, r)) claimed_second)

abbrev visits : List Visit
visits =
    record { worker_name = "w1"; now = "10:01"; ts = "10:01" }
    ∷ record { worker_name = "w2"; now = "10:02"; ts = "10:02" }
    ∷ []

two_queued : length (keep (is_queued 1) store.runs) ≡ 2
unfolding perform_all perform enqueue replayed add_job record_run append_run_event active_run_count
    first_where find_run_by_idempotency_key keep is_empty queued_run cancel cancel_run get_run
    update_run update_where
two_queued = refl

claim_all-queued_example :
    claim_all 1 visits store ≡ map (λ r. r.id) (keep (is_queued 1) store.runs)
claim_all-queued_example = claim_all-queued 2 1 two_jobs visits (omega (arith, two_queued))

abbrev cancelled : RunStore
cancelled = perform_all 2 (cancel_job 1 "10:03" "10:03" ∷ []) store

abbrev dead : Run
dead = run_of (find_run_by_idempotency_key 1 (some "a") cancelled)

dead_found : find_run_by_idempotency_key 1 (some "a") cancelled ≡ some dead
unfolding perform_all perform enqueue replayed add_job record_run append_run_event active_run_count
    first_where find_run_by_idempotency_key keep is_empty queued_run cancel cancel_run get_run
    update_run update_where
dead_found = refl

dead_cancelled : may_replay dead ≡ false
unfolding perform_all perform enqueue replayed add_job record_run append_run_event active_run_count
    first_where find_run_by_idempotency_key keep is_empty queued_run cancel cancel_run get_run
    update_run update_where
dead_cancelled = refl

has_room : leb 2 (active_run_count 1 cancelled) ≡ false
unfolding perform_all perform enqueue replayed add_job record_run append_run_event active_run_count
    first_where find_run_by_idempotency_key keep is_empty queued_run cancel cancel_run get_run
    update_run update_where
has_room = refl

enqueue-lost_example :
    ((enqueue 2 (request "a") cancelled).1 ≡ run dead.id true)
    × ((enqueue 2 (request "a") cancelled).0.runs ≡ cancelled.runs)
enqueue-lost_example =
    enqueue-lost 2 (request "a") "a" cancelled dead refl (unfold is_empty in refl) dead_found
      dead_cancelled has_room
