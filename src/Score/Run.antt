-- ===== src/Score/Run.antt =====
-- The reference state machine of a score (src/mco/orchestrator/scores.py, `SandboxRun`). Each method answers
-- with a value or an error, and with the run as it is left: what was written before an error stays. The
-- token of an attempt is its run, digest, task and number; `load_score` keeps separators out of task ids.
use bit_cadence.Prelude.{
  ℕ, ◌+◌, String, Bool, true, false, ◌&&◌, ◌||◌, not, Option, none, some, List, [], ◌∷◌, ◌++◌, leb,
  ltb, ◌==◌, if◌then◌else◌, is_some, str_eq, Dict, lookup, insert, all_by, is_blank, ok, err,
}
use bit_cadence.Score.Policy.{
  Checked, GateKind, GateKey, GateStore, GateStatus, required_gates, is_granted, bad_string,
  bad_evidence, clock_backwards, unknown_task, not_dispatchable, stale_claim, wrong_author,
}
use bit_cadence.Score.Plan.{Task, disjoint, within, is_nil}

pub data TaskStatus : Type 0 where
  pending running review accepted blocked : TaskStatus

abbrev pub same_status : TaskStatus → TaskStatus → Bool
same_status pending pending = true
same_status running running = true
same_status review review = true
same_status accepted accepted = true
same_status blocked blocked = true
same_status _ _ = false

abbrev pub is_pending : TaskStatus → Bool
is_pending pending = true
is_pending _ = false

abbrev pub is_accepted : TaskStatus → Bool
is_accepted accepted = true
is_accepted _ = false

-- status in ("running", "review")
abbrev pub is_active : TaskStatus → Bool
is_active running = true
is_active review = true
is_active _ = false

pub record Token : Type 0 where
  pub run_id : String
  pub digest : String
  pub task_id : String
  pub attempt : ℕ

abbrev pub same_token : Option Token → Option Token → Bool
same_token none none = true
same_token (some a) (some b) =
    str_eq a.run_id b.run_id
    && str_eq a.digest b.digest
    && str_eq a.task_id b.task_id
    && (a.attempt == b.attempt)
same_token _ _ = false

-- a task, and the state of the run on it
pub record Entry : Type 0 where
  pub task : Task
  pub status : TaskStatus
  pub attempt : ℕ
  pub token : Option Token
  pub author : Option String
  pub deadline : Option ℕ
  pub evidence : Option (Dict String)
  pub is_approved : Bool

pub data EventKind : Type 0 where
  started work_completed was_accepted expired review_rejected : EventKind
  human : GateStatus → EventKind
  verified : String → EventKind

pub record Event : Type 0 where
  pub kind : EventKind
  pub task : String
  pub at : ℕ
  pub actor : Option String

pub record CheckpointDecision : Type 0 where
  pub task : String
  pub decision : GateStatus
  pub actor : String

pub record Run : Type 0 where
  pub run_id : String
  pub org_id : String
  pub fingerprint : String
  pub max_parallel : ℕ
  pub launch_requires : List String
  pub grants : List String
  pub budget : ℕ
  pub reserved : ℕ
  pub states : Dict Entry
  pub events : List Event  -- oldest first
  pub clock : ℕ
  pub gate_service : Option GateStore
  pub projected : String → ℕ  -- projected_monthly_cents.get(task, 0)
  pub review_actors : Dict String
  pub checkpoint_decisions : List CheckpointDecision

abbrev pub log : EventKind → String → Option String → Run → Run
log k task who r = record r {
  events = r.events ++ record { kind = k; task = task; at = r.clock; actor = who } ∷ [];
}

abbrev pub put : String → Entry → Run → Run
put k e r = record r { states = insert k e r.states }

abbrev pub key_of : Run → String → GateKind → GateKey
key_of r task kind = record {
  org_id = r.org_id;
  run_id = r.run_id;
  digest = r.fingerprint;
  task_id = task;
  kind = kind;
}

pub data Blocker : Type 0 where
  in_status : TaskStatus → Blocker
  dependencies authority human_checkpoint over_budget parallel_limit resource_lock : Blocker

abbrev pub accepted_entry : Option Entry → Bool
accepted_entry none = false
accepted_entry (some e) = is_accepted e.status

-- `load_score` has checked that each dependency is a task
unfoldable pub dependencies_met : List String → Dict Entry → Bool
dependencies_met deps states = all_by (λ d. accepted_entry (lookup d states)) deps

unfoldable pub count_active : Dict Entry → ℕ
count_active [] = 0
count_active ((k, e) ∷ rest) = (if is_active e.status then 1 else 0) + count_active rest

unfoldable pub locks_free : List String → Dict Entry → Bool
locks_free resources [] = true
locks_free resources ((k, e) ∷ rest) =
    (if is_active e.status then disjoint resources e.task.resources else true)
    && locks_free resources rest

abbrev pub all_granted : Run → String → GateStore → List GateKind → Bool
all_granted r task s kinds = all_by (λ kind. is_granted (key_of r task kind) s) kinds

-- whether the human has let the task pass
unfoldable pub gate_approved : Run → Entry → List GateKind → Bool
gate_approved r e [] = e.is_approved
gate_approved r e (k ∷ ks) = elim r.gate_service [
  | none ↦ false
  | some s ↦ all_granted r e.task.id s (k ∷ ks)
]

-- the reasons whose test is true
abbrev pub reasons : List (Bool × Blocker) → List Blocker
reasons [] = []
reasons ((true, b) ∷ rest) = b ∷ reasons rest
reasons ((false, b) ∷ rest) = reasons rest

unfoldable pub gates_of : Run → Entry → List GateKind
gates_of r e = required_gates e.task.id (r.projected e.task.id)

-- what may block a task that is pending
unfoldable pub tests_of : Run → Entry → List (Bool × Blocker)
unfolding dependencies_met count_active locks_free gate_approved gates_of
tests_of r e =
    (not (dependencies_met e.task.depends_on r.states), dependencies)
    ∷ (not (within e.task.capabilities r.grants), authority)
    ∷ (
      (is_some e.task.checkpoint || not (is_nil (gates_of r e)))
          && not (gate_approved r e (gates_of r e)),
      human_checkpoint,
    )
    ∷ (ltb r.budget (r.reserved + e.task.max_cost_cents), over_budget)
    ∷ (leb r.max_parallel (count_active r.states), parallel_limit)
    ∷ (not (locks_free e.task.resources r.states), resource_lock)
    ∷ []

unfoldable pub blockers : Run → Entry → List Blocker
unfolding tests_of
blockers r e = if not (is_pending e.status) then in_status e.status ∷ [] else reasons (tests_of r e)

abbrev pub Answer : Type 0 → Type 0
Answer A = Checked A × Run

-- `_time`, and what follows it
abbrev pub at_time : {A : Type 0} → ℕ → Run → (Run → Answer A) → Answer A
at_time now r next =
    if ltb now r.clock then (err clock_backwards, r) else next (record r { clock = now })

-- `_state`, and what follows it
abbrev pub with_state : {A : Type 0} → Option Entry → Run → (Entry → Answer A) → Answer A
with_state none r next = (err unknown_task, r)
with_state (some e) r next = next e

abbrev pub token_of : Run → String → ℕ → Token
token_of r k n = record { run_id = r.run_id; digest = r.fingerprint; task_id = k; attempt = n }

unfoldable pub started_entry : Run → String → String → ℕ → Entry → Entry
started_entry r k actor now e = record e {
  status = running;
  attempt = e.attempt + 1;
  token = some (token_of r k (e.attempt + 1));
  author = some actor;
  deadline = some (now + e.task.timeout_seconds);
  evidence = none;
}

unfoldable pub start_entry : String → String → String → ℕ → Run → Entry → Answer Token
unfolding blockers started_entry
start_entry k actor role now r e =
    if is_blank actor
    then (err bad_string, r)
    else if not (str_eq role e.task.role) || not (is_nil (blockers r e))
    then (err not_dispatchable, r)
    else (
      ok (token_of r k (e.attempt + 1)),
      log started k (some actor) (
          put k (started_entry r k actor now e)
            (record r { reserved = r.reserved + e.task.max_cost_cents })),
    )

unfoldable pub start : String → String → String → ℕ → Run → Answer Token
unfolding start_entry
start k actor role now r =
    at_time now r (λ r. with_state (lookup k r.states) r (λ e. start_entry k actor role now r e))

abbrev pub before : ℕ → Option ℕ → Bool
before now none = false
before now (some t) = ltb now t

-- `_claim`, without the time
unfoldable pub is_claim : Option Token → TaskStatus → ℕ → Entry → Bool
is_claim token status now e =
    same_token e.token token && same_status e.status status && before now e.deadline

abbrev pub same_person : Option String → String → Bool
same_person none s = false
same_person (some t) s = str_eq t s

-- `_keys(evidence, required)` and a text for each
abbrev pub keys : Dict String → List String
keys [] = []
keys ((k, v) ∷ d) = k ∷ keys d

abbrev pub filled : Dict String → Bool
filled [] = true
filled ((k, v) ∷ d) = not (is_blank v) && filled d

unfoldable pub is_evidence : List String → Dict String → Bool
is_evidence required d = within required (keys d) && within (keys d) required && filled d

unfoldable pub finish_entry :
    String → Option Token → String → Dict String → ℕ → Run → Entry → Answer (Unit {0})
unfolding is_claim is_evidence
finish_entry k token actor evidence now r e =
    if not (is_claim token running now e)
    then (err stale_claim, r)
    else if not (same_person e.author actor)
    then (err wrong_author, r)
    else if not (is_evidence e.task.evidence evidence)
    then (err bad_evidence, r)
    else (
      ok tt,
      log work_completed k (some actor) (
          put k
            (record e {
              status = review;
              evidence = some evidence;
              deadline = some (now + e.task.timeout_seconds);
            })
            r),
    )

unfoldable pub finish : String → Option Token → String → Dict String → ℕ → Run → Answer (Unit {0})
unfolding finish_entry
finish k token actor evidence now r =
    at_time now r
      (λ r. with_state (lookup k r.states) r (λ e. finish_entry k token actor evidence now r e))
