-- ===== src/Lease/Examples.antt =====
-- Tests of the lease model, and its theorems at concrete inputs. Times are in seconds.
use bit_cadence.Prelude.{
  err, ok, ◌≡◌, refl, true, false, none, some, List, [], ◌∷◌, lookup, insert, get_or, ◌⊎◌,
}
use bit_cadence.Board.{Job, Claim, Updates, Db, pending, completed, failed, is_renewable}
use bit_cadence.Lease.Claims.{Lease, LeaseError, as_claim, lease_of, different_result}
use bit_cadence.Lease.Operations.{Fresh, put_job, granted, acquire_lease, renew_lease, requeued}
use bit_cadence.Lease.Update.{
  fenced_update, Reply, apply_updates, same_updates, set_paused, record_write,
}
use bit_cadence.Lease.Fencing.{Owns, fenced_update-Owns, acquire_lease-exclusive}
use bit_cadence.Lease.Attempts.{report}
use bit_cadence.Lease.Renewal.{extended}
use bit_cadence.Lease.Replay.{fenced_update-once}
use bit_cadence.Lease.Halts.{resumes, set_paused-halts}
use bit_cadence.Lease.Epochs.{
  Action, act, acquires, updates, pauses, rotates, history, Grows, history-Grows,
}

abbrev build_job : Job
build_job = record {
  id = "job-1";
  status = pending;
  leased_by = none;
  lease_id = none;
  lease_epoch = some 3;
  lease_incarnation = none;
  lease_expires_at = none;
  started_at = none;
  completed_at = none;
  output_payload = none;
  error_message = none;
  target_role = "builder";
  depends_on = [];
  requires_approval = false;
  max_retries = 2;
  retry_count = 0;
  escalate_to_role = none;
  score_owned = false;
  escalated_from = none;
}

abbrev board : Db
board = record {
  jobs =
      ("job-0", record build_job { id = "job-0"; status = completed }) ∷ ("job-1", build_job) ∷ [];
  receipts = [];
  paused = false;
  incarnation = some "store-1";
}

abbrev fresh : Fresh
fresh = record { new_lease = "lease-1"; new_incarnation = "store-2" }

abbrev running_job : Job
unfolding granted
running_job = granted fresh "store-1" 600 1000 "hermes" build_job

abbrev lease : Lease
lease = lease_of running_job

abbrev acquired : Db
acquired = put_job "job-1" running_job board

lease_epoch_grows : running_job.lease_epoch ≡ some 4
unfolding running_job
lease_epoch_grows = refl

-- the store as it is after others have worked on it and its identity has been rotated
abbrev restored : Db
restored = record acquired { jobs = ("job-1", running_job) ∷ []; incarnation = some "store-7" }

acquire_lease-exclusive_example :
    acquire_lease fresh 60 1001 "job-1" "codex" restored ≡ (none, restored)
unfolding acquire_lease running_job lookup insert
acquire_lease-exclusive_example =
    acquire_lease-exclusive fresh fresh 600 60 1000 1001 "job-1" "hermes" "codex" board acquired
      restored lease refl refl

abbrev done_report : Updates
done_report = report completed (some "built")

abbrev reported : Reply × Db
unfolding record_write
reported = record_write 1200 "job-1" (as_claim lease) done_report running_job acquired

fenced_update-Owns_example :
    (j : Job) × (lookup "job-1" acquired.jobs ≡ some j)
    × Owns fresh 1200 (as_claim lease) done_report acquired j
    × (reported.0.row ≡ apply_updates 1200 done_report j)
    × (lookup "job-1" reported.1.jobs ≡ some reported.0.row)
unfolding fenced_update running_job reported lookup insert
fenced_update-Owns_example =
    fenced_update-Owns fresh 1200 "job-1" (as_claim lease) done_report none acquired reported.1
      reported.0 refl refl

abbrev requeued_board : Db
unfolding requeued
requeued_board = put_job "job-1" (requeued running_job) acquired

-- a worker of an earlier attempt
abbrev stale : Claim
stale = record (as_claim lease) { claim_id = some "lease-0"; claim_epoch = some 3 }

abbrev renewed : Db
renewed = put_job "job-1" (extended 900 1500 running_job) acquired

abbrev failed_report : Updates
failed_report = report failed none

-- what is tried afterwards
abbrev morning : List Action
morning = pauses true ∷ rotates "store-9" ∷ acquires fresh 60 8000 "job-1" "codex" ∷ []

fenced_update-once_example :
    let later = history reported.1 morning in
    (fenced_update fresh 9000 "job-1" (as_claim lease) done_report none later
      ≡ ok (record { row = reported.0.row; replayed = true }, later))
    × ((same_updates done_report failed_report ≡ true)
        ⊎ (fenced_update fresh 9000 "job-1" (as_claim lease) failed_report none later
            ≡ err different_result))
unfolding fenced_update running_job reported lookup insert
fenced_update-once_example =
    fenced_update-once fresh fresh 1200 9000 "job-1" (as_claim lease) done_report failed_report none
      none acquired reported.1 morning reported.0 running_job refl refl refl refl refl refl refl
      refl

-- what is tried while the board is paused
abbrev attempts : List Action
attempts =
    rotates "store-9"
    ∷ acquires fresh 60 1050 "job-1" "codex"
    ∷ updates fresh 1060 "job-1" (as_claim lease) done_report none
    ∷ []

abbrev halted_job : Job
halted_job = get_or build_job (lookup "job-1" (set_paused true acquired).1.jobs)

set_paused-halts_example :
    let later = history (set_paused true acquired).1 attempts in
    (is_renewable halted_job.status ≡ false)
    × (acquire_lease fresh 600 1100 "job-1" "codex" later ≡ (none, later))
    × (renew_lease fresh 600 1100 lease later ≡ (false, later))
    × ((e : LeaseError) × (fenced_update fresh 1100 "job-1" (as_claim lease) done_report none later
          ≡ err e))
unfolding set_paused running_job lookup insert history act resumes acquire_lease fenced_update
set_paused-halts_example =
    set_paused-halts acquired attempts fresh 600 1100 "job-1" "codex" halted_job lease
      (as_claim lease) done_report none refl refl refl

abbrev night : List Action
night =
    acquires fresh 600 1000 "job-1" "hermes"
    ∷ updates fresh 1200 "job-1" (as_claim lease) done_report none
    ∷ pauses true
    ∷ []

history-Grows_example :
    (j : Job) × (lookup "job-1" (history board night).jobs ≡ some j) × Grows build_job j
unfolding lookup
history-Grows_example = history-Grows board night "job-1" build_job refl
