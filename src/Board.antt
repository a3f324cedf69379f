-- ===== src/Board.antt =====
-- The job board's rows (src/mco/orchestrator/contracts.py, leases.py, handlers.py): the statuses of
-- a job, the row of a job, and the store that the lease and the handler modules share.
use bit_cadence.Prelude.{
  ℕ, String, Bool, true, false, Option, none, some, List, Dict, str_eq, ◌==◌, ◌≡◌, ◌↔◌, arith,
  eq_iff,
}

pub data Status : Type 0 where
  waiting needs_approval pending leased in_progress : Status
  completed failed rejected cancelled halted : Status
  unknown : String → Status

abbrev pub is_waiting : Status → Bool
is_waiting waiting = true
is_waiting _ = false

abbrev pub is_pending : Status → Bool
is_pending pending = true
is_pending _ = false

abbrev pub is_completed : Status → Bool
is_completed completed = true
is_completed _ = false

abbrev pub is_failed : Status → Bool
is_failed failed = true
is_failed _ = false

-- TERMINAL
abbrev pub is_terminal : Status → Bool
is_terminal completed = true
is_terminal failed = true
is_terminal cancelled = true
is_terminal halted = true
is_terminal rejected = true
is_terminal _ = false

-- RENEWABLE
abbrev pub is_renewable : Status → Bool
is_renewable leased = true
is_renewable in_progress = true
is_renewable _ = false

-- {IN_PROGRESS, COMPLETED, FAILED}, what WORKER_TRANSITIONS gives each renewable status
abbrev pub is_worker_target : Status → Bool
is_worker_target in_progress = true
is_worker_target completed = true
is_worker_target failed = true
is_worker_target _ = false

-- status in {COMPLETED, FAILED}
abbrev pub is_final_report : Status → Bool
is_final_report completed = true
is_final_report failed = true
is_final_report _ = false

-- A row of `agent_jobs`, without its texts for people and its creator.
pub record Job : Type 0 where
  pub id : String
  pub status : Status
  pub leased_by : Option String
  pub lease_id : Option String
  pub lease_epoch : Option ℕ
  pub lease_incarnation : Option String
  pub lease_expires_at : Option ℕ
  pub started_at : Option ℕ
  pub completed_at : Option ℕ
  pub output_payload : Option String
  pub error_message : Option String
  pub target_role : String
  pub depends_on : List String
  pub requires_approval : Bool
  pub max_retries : ℕ
  pub retry_count : ℕ
  pub escalate_to_role : Option String
  pub score_owned : Bool  -- input_payload.score.protocol == "score-v1"
  pub escalated_from : Option String  -- input_payload.escalated_from

-- What a worker presents as its proof of ownership.
pub record Claim : Type 0 where
  pub claim_id : Option String  -- lease_id
  pub claim_epoch : Option ℕ  -- lease_epoch
  pub claim_incarnation : Option String  -- lease_incarnation
  pub claim_owner : Option String  -- agent_instance_id

-- The update that a worker asks for; `protected` lists the keys that it may not write.
pub record Updates : Type 0 where
  pub new_status : Option Status
  pub new_output : Option String
  pub new_error : Option String
  pub protected : List String

pub record Receipt : Type 0 where
  pub claim : Claim
  pub updates : Updates
  pub job : Job

pub record Db : Type 0 where
  pub jobs : Dict Job
  pub receipts : Dict Receipt
  pub paused : Bool
  pub incarnation : Option String

abbrev pub same_text : Option String → Option String → Bool
same_text none none = true
same_text (some a) (some b) = str_eq a b
same_text _ _ = false

abbrev pub same_number : Option ℕ → Option ℕ → Bool
same_number none none = true
same_number (some a) (some b) = a == b
same_number _ _ = false

pub same_text_iff : (a b : Option String) → (same_text a b ≡ true) ↔ (a ≡ b)
same_text_iff none none = ground arith
same_text_iff none (some b) = ground arith
same_text_iff (some a) none = ground arith
same_text_iff (some a) (some b) = ground (arith, eq_iff a b)

pub same_number_iff : (a b : Option ℕ) → (same_number a b ≡ true) ↔ (a ≡ b)
same_number_iff none none = ground arith
same_number_iff none (some b) = ground arith
same_number_iff (some a) none = ground arith
same_number_iff (some a) (some b) = ground arith
