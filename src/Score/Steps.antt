-- ===== src/Score/Steps.antt =====
-- Review, expiry and the tasks of a run at its beginning (src/mco/orchestrator/scores.py, `SandboxRun`).
use bit_cadence.Prelude.{
  ℕ, zero, suc, String, Bool, false, ◌&&◌, ◌||◌, not, Option, none, some, List, [], ◌∷◌, ◌++◌, leb,
  ltb, ◌==◌, if◌then◌else◌, str_eq, Dict, lookup, insert, length, is_blank, ok, err,
}
use bit_cadence.Score.Policy.{
  Evidence, bad_string, stale_claim, not_independent, not_authoritative, unverified, wrong_binding,
  wrong_reviewer,
}
use bit_cadence.Score.Plan.{Task}
use bit_cadence.Score.Run.{
  pending, review, accepted, blocked, is_active, Token, Entry, was_accepted, expired,
  review_rejected, verified, Event, Run, log, put, Answer, at_time, with_state, is_claim,
  same_person,
}

unfoldable pub retried : Entry → Entry
retried e = record e {
  status = if ltb e.attempt e.task.max_attempts then pending else blocked;
  token = none;
  evidence = none;
  is_approved = false;
}

-- the task whose `on_reject` names a task: of several, the last
unfoldable pub reject_sources : Dict Entry → Dict String → Dict String
unfolding insert
reject_sources [] found = found
reject_sources ((k, e) ∷ rest) found = elim e.task.on_reject [
  | none ↦ reject_sources rest found
  | some t ↦ reject_sources rest (if str_eq t "" then found else insert t k found)
]

-- whether the actor has reviewed a task that this one repairs, going back along `on_reject`
unfoldable pub reviewed_before : ℕ → Dict String → Dict String → String → Option String → Bool
unfolding lookup
reviewed_before zero sources actors actor o = false
reviewed_before (suc n) sources actors actor none = false
reviewed_before (suc n) sources actors actor (some p) =
    same_person (lookup p actors) actor || reviewed_before n sources actors actor (lookup p sources)

-- the server's verdict, of which the run reads its binding, its reviewer and the kinds of its events
pub record Verification : Type 0 where
  pub run_id : String
  pub task_id : String
  pub attempt : ℕ
  pub score_digest : String
  pub reviewer_id : String
  pub event_types : List String

unfoldable pub is_bound : Run → String → Entry → Verification → Bool
is_bound r k e v =
    str_eq v.run_id r.run_id
    && str_eq v.task_id k
    && (v.attempt == e.attempt)
    && str_eq v.score_digest r.fingerprint

abbrev pub log_each : List String → String → String → Run → Run
log_each [] k actor r = r
log_each (t ∷ ts) k actor r = log_each ts k actor (log (verified t) k (some actor) r)

unfoldable pub accept : String → String → Run → Entry → Option Verification → Answer (Unit {0})
unfolding is_bound
accept k actor r e none = (err unverified, r)
accept k actor r e (some v) =
    if not (is_bound r k e v)
    then (err wrong_binding, r)
    else if not (str_eq v.reviewer_id actor)
    then (err wrong_reviewer, r)
    else (
      ok tt,
      log was_accepted k (some actor)
          (put k (record e { status = accepted }) (log_each v.event_types k actor r)),
    )

-- once the reviewer is known to be independent
unfoldable pub judge :
    String → String → Bool → Option Verification → Bool → Run → Entry → Answer (Unit {0})
unfolding accept retried
judge k actor passed verification claimed r e =
    if claimed
    then (err not_authoritative, r)
    else if passed
    then accept k actor r e verification
    else (ok tt, log review_rejected k none (put k (retried e) r))

unfoldable pub review_entry :
    String
    → Option Token
    → String
    → String
    → Bool
    → Option Verification
    → Bool
    → ℕ
    → Run
    → Entry
    → Answer (Unit {0})
unfolding is_claim reviewed_before reject_sources judge
review_entry k token actor role passed verification claimed now r e =
    let sources = reject_sources r.states [] in
    if not (is_claim token review now e)
    then (err stale_claim, r)
    else if is_blank actor
    then (err bad_string, r)
    else if same_person e.author actor || not (str_eq role e.task.review_role)
    then (err not_independent, r)
    else if reviewed_before (length r.states) sources r.review_actors actor (lookup k sources)
    then (err not_independent, r)
    else judge k actor passed verification claimed
        (record r { review_actors = insert k actor r.review_actors }) e

-- `review`; `claimed` is whether the worker's own word is handed in
unfoldable pub review_task :
    String
    → Option Token
    → String
    → String
    → Bool
    → Option Verification
    → Bool
    → ℕ
    → Run
    → Answer (Unit {0})
unfolding review_entry
review_task k token actor role passed verification claimed now r = at_time now r (λ r.
    with_state (lookup k r.states) r
      (λ e. review_entry k token actor role passed verification claimed now r e))

abbrev pub overdue : ℕ → Option ℕ → Bool
overdue now none = false
overdue now (some t) = leb t now

abbrev pub is_expired : ℕ → Entry → Bool
is_expired now e = is_active e.status && overdue now e.deadline

unfoldable pub expire_states : ℕ → Dict Entry → Dict Entry
unfolding retried
expire_states now [] = []
expire_states now ((k, e) ∷ rest) =
    (k, if is_expired now e then retried e else e) ∷ expire_states now rest

unfoldable pub expire_events : ℕ → Dict Entry → List Event
expire_events now [] = []
expire_events now ((k, e) ∷ rest) =
    let more = expire_events now rest in
    if is_expired now e
    then record { kind = expired; task = k; at = now; actor = none } ∷ more
    else more

unfoldable pub expire : ℕ → Run → Answer (Unit {0})
unfolding expire_states expire_events
expire now r = at_time now r (λ r. (
  ok tt,
  record r { states = expire_states now r.states; events = r.events ++ expire_events now r.states },
))

abbrev pub fresh_entry : Task → Entry
fresh_entry t = record {
  task = t;
  status = pending;
  attempt = 0;
  token = none;
  author = none;
  deadline = none;
  evidence = none;
  is_approved = false;
}

unfoldable pub fresh_states : List Task → Dict Entry
fresh_states [] = []
fresh_states (t ∷ ts) = (t.id, fresh_entry t) ∷ fresh_states ts

abbrev pub policy_evidence : ℕ → Evidence
policy_evidence n = record {
  projected_monthly_cents = some n;
  target_branch = none;
  deploy_target = none;
  others = ("policy_id", "via-owner-2026-09-15") ∷ [];
}
