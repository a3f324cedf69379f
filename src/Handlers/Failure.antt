-- ===== src/Handlers/Failure.antt =====
-- Creation, retry, escalation and the worker's update (handlers.py).
use bit_cadence.Prelude.{
  ℕ, ◌+◌, String, Bool, false, ◌||◌, Option, none, some, [], ◌∷◌, ◌++◌, ltb, if◌then◌else◌, ok, err,
  lookup, str_eq,
}
use bit_cadence.Board.{Job, Db, Status, pending, unknown, is_failed, is_completed, Claim}
use bit_cadence.Lease.Claims.{LeaseError, Result}
use bit_cadence.Lease.Operations.{put_job, Fresh}
use bit_cadence.Lease.Update.{fenced_update, Reply}
use bit_cadence.Handlers.Hub.{
  Hub, created, retried, escalated, reported, write_fenced, broadcast, note, unlock_dependents,
}

-- what a requeued job is left with
unfoldable pub retried_row : ℕ → Job → Job
retried_row count j = record j {
  status = pending;
  retry_count = count + 1;
  leased_by = none;
  lease_id = none;
  lease_expires_at = none;
  started_at = none;
}

-- the update of a failed job, on the condition that it is still failed
unfoldable pub retry_row : Job → Option Job → Hub → Hub
unfolding retried_row
retry_row j none h = h
retry_row j (some i) h =
    let row : Job = retried_row j.retry_count i in
    if is_failed i.status
    then record {
      db = put_job j.id row h.db;
      notices = h.notices ++ retried j.id (j.retry_count + 1) ∷ broadcast "job_pending" row ∷ [];
    }
    else h

-- the job that an escalation puts on the board, under a fresh id
unfoldable pub escalation : String → String → Job → Job
escalation fresh role j = record {
  id = fresh;
  status = pending;
  leased_by = none;
  lease_id = none;
  lease_epoch = none;
  lease_incarnation = none;
  lease_expires_at = none;
  started_at = none;
  completed_at = none;
  output_payload = none;
  error_message = none;
  target_role = role;
  depends_on = [];
  requires_approval = false;
  max_retries = 0;
  retry_count = 0;
  escalate_to_role = none;
  score_owned = false;
  escalated_from = some j.id;
}

-- behind `if not escalate_to_role: return`
unfoldable pub escalate : String → Job → Option String → Hub → Hub
unfolding escalation
escalate fresh j none h = h
escalate fresh j (some role) h = if str_eq role "" then h else record {
  db = put_job fresh (escalation fresh role j) h.db;
  notices =
      h.notices
      ++ escalated j.id fresh
        ∷ created fresh pending
        ∷ broadcast "job_pending" (escalation fresh role j)
        ∷ [];
}

-- `_handle_failure`, without the connector to an outside platform
unfoldable pub handle_failure : String → Job → Hub → Hub
unfolding retry_row escalate
handle_failure fresh j h =
    if ltb j.retry_count j.max_retries
    then retry_row j (lookup j.id h.db.jobs) h
    else escalate fresh j j.escalate_to_role h

pub data Answer : Type 0 where
  missing : Answer
  updated : Job → Bool → Answer  -- replayed?
  fenced : LeaseError → Answer

-- what follows an accepted update
unfoldable pub follow_up : String → String → Status → Reply → Hub → Hub
unfolding unlock_dependents handle_failure
follow_up fresh k s r h =
    if r.replayed
    then (if is_completed s then unlock_dependents k h else h)
    else (let told : Hub = note (broadcast "job_updated" r.row ∷ []) h in
        if is_completed s
        then unlock_dependents k told
        else if is_failed s
        then handle_failure fresh r.row told
        else told)

-- `handle_job_update` behind the call of `fenced_update`, which changes the store only if it returns
unfoldable pub after_update : String → String → Status → Hub → Result (Reply × Db) → Answer × Hub
unfolding follow_up
after_update fresh k s h (err e) = (fenced e, note (write_fenced k e ∷ []) h)
after_update fresh k s h (ok (r, db')) = (
  updated r.row r.replayed,
  follow_up fresh k s r (record { db = db'; notices = h.notices ++ reported k s ∷ [] }),
)

-- `not status`
abbrev pub is_blank : Status → Bool
is_blank (unknown t) = str_eq t ""
is_blank _ = false

unfoldable pub handle_job_update :
    Fresh
    → String
    → ℕ
    → String
    → Claim
    → Status
    → Option String
    → Option String
    → Hub
    → Answer × Hub
unfolding after_update
handle_job_update f fresh now k c s output message h =
    if str_eq k "" || is_blank s
    then (missing, h)
    else after_update fresh k s h (
        fenced_update f now k c
          (record { new_status = some s; new_output = output; new_error = message; protected = [] })
          none h.db)
