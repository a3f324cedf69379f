-- ===== src/Handlers/Examples.antt =====
-- Tests of the handlers, and their theorems at concrete inputs.
use mathlib.Core.List.{Memᴰ}
use bit_cadence.Prelude.{
  ◌≤◌, ◌<◌, ◌≡◌, refl, String, true, false, none, some, [], ◌∷◌, lookup, insert, Dict, str_eq, ◌⊎◌,
  get_or,
}
use bit_cadence.Board.{Job, Claim, waiting, pending, in_progress, completed, failed}
use bit_cadence.Lease.Operations.{Fresh}
use bit_cadence.Lease.Update.{Reply, apply_updates}
use bit_cadence.Handlers.Hub.{Hub, initial_status, all_completed, unlock_dependents}
use bit_cadence.Handlers.Failure.{retried_row, escalation, handle_failure}
use bit_cadence.Handlers.Dependents.{unlock_dependents-opened}
use bit_cadence.Handlers.Turns.{opened, made_ready}
use bit_cadence.Handlers.Parents.{unlock_dependents-releases}
use bit_cadence.Handlers.Creation.{initial_status-absent}
use bit_cadence.Handlers.Retries.{asked, handle_failure_lem}

abbrev design : Job
design = record {
  id = "design";
  status = completed;
  leased_by = none;
  lease_id = none;
  lease_epoch = some 1;
  lease_incarnation = none;
  lease_expires_at = none;
  started_at = none;
  completed_at = some 90;
  output_payload = none;
  error_message = none;
  target_role = "builder";
  depends_on = [];
  requires_approval = false;
  max_retries = 0;
  retry_count = 0;
  escalate_to_role = none;
  score_owned = false;
  escalated_from = none;
}

abbrev build : Job
build = record design {
  id = "build";
  status = waiting;
  completed_at = none;
  depends_on = "design" ∷ "design" ∷ [];
}

abbrev deploy : Job
deploy = record build { id = "deploy"; depends_on = "build" ∷ []; requires_approval = true }

abbrev crashed : Job
crashed = record design {
  id = "crashed";
  status = failed;
  retry_count = 2;
  max_retries = 2;
  escalate_to_role = some "human";
}

abbrev table : Dict Job
table = ("design", design) ∷ ("build", build) ∷ ("deploy", deploy) ∷ ("crashed", crashed) ∷ []

abbrev hub : Hub
hub = record {
  db = record { jobs = table; receipts = []; paused = false; incarnation = some "store-1" };
  notices = [];
}

unlock_dependents-opened_example :
    lookup "deploy" (unlock_dependents "design" hub).db.jobs
    ≡ opened "design" hub.db.jobs (lookup "deploy" hub.db.jobs)
unlock_dependents-opened_example = unlock_dependents-opened "design" "deploy" hub

unlock_dependents-releases_example :
    lookup "build" (unlock_dependents "design" hub).db.jobs ≡ some (made_ready build)
unfolding lookup
unlock_dependents-releases_example =
    unlock_dependents-releases "design" "build" hub build refl refl refl refl
      ((design, refl, refl), ((design, refl, refl), tt))

initial_status-absent_example :
    (initial_status table ("design" ∷ "dseign" ∷ []) false ≡ pending)
    × (all_completed ("design" ∷ "dseign" ∷ []) table ≡ false)
unfolding lookup
initial_status-absent_example =
    initial_status-absent table ("design" ∷ "dseign" ∷ []) "dseign" (Memᴰ.tail (Memᴰ.head refl))
      refl refl

handle_failure_lem_example :
    ((crashed.retry_count < crashed.max_retries)
      × (lookup "crashed" (handle_failure "job-9" crashed hub).db.jobs
          ≡ some (retried_row crashed.retry_count crashed))
      × (lookup "job-9" (handle_failure "job-9" crashed hub).db.jobs ≡ lookup "job-9" hub.db.jobs))
    ⊎ ((role : String) × (crashed.max_retries ≤ crashed.retry_count)
        × (crashed.escalate_to_role ≡ some role)
        × (str_eq role "" ≡ false)
        × (lookup "crashed" (handle_failure "job-9" crashed hub).db.jobs ≡ some crashed)
        × (lookup "job-9" (handle_failure "job-9" crashed hub).db.jobs
            ≡ some (escalation "job-9" role crashed)))
    ⊎ ((crashed.max_retries ≤ crashed.retry_count)
        × (get_or "" crashed.escalate_to_role ≡ "")
        × (handle_failure "job-9" crashed hub ≡ hub))
unfolding lookup
handle_failure_lem_example = handle_failure_lem "job-9" crashed hub refl refl refl

abbrev fresh : Fresh
fresh = record { new_lease = "lease-1"; new_incarnation = "store-2" }

abbrev nobody : Claim
nobody = record {
  claim_id = none;
  claim_epoch = none;
  claim_incarnation = none;
  claim_owner = none;
}

-- the build, leased to a worker
abbrev leased_build : Job
leased_build = record build {
  status = in_progress;
  leased_by = some "hermes";
  lease_id = some "lease-1";
  lease_incarnation = some "store-1";
  lease_expires_at = some 700;
  started_at = some 100;
}

abbrev hermes : Claim
hermes = record {
  claim_id = some "lease-1";
  claim_epoch = some 1;
  claim_incarnation = some "store-1";
  claim_owner = some "hermes";
}

abbrev working : Hub
working = record hub { db = record hub.db { jobs = insert "build" leased_build table } }

abbrev built : Reply
unfolding apply_updates
built = record {
  row = apply_updates 200 (asked completed (some "ok") none) leased_build;
  replayed = false;
}
