-- ===== src/Score/Budgets.antt =====
-- What no step of a run writes: the budget that it began with (scores.py, `SandboxRun`).
use bit_cadence.Prelude.{
  ℕ, ◌≡◌, refl, ◌∙◌, insert, String, Bool, Option, none, some, List, [], ◌∷◌, arith, ltb, lookup,
  Dict, Option-cases, Bool-cases, inl, inr, ok, err,
}
use bit_cadence.Score.Policy.{Checked, GateKind, GateStore, Caller, GateStatus, DecisionRow}
use bit_cadence.Score.Run.{
  Entry, Run, Token, Answer, at_time, with_state, start, start_entry, finish, finish_entry,
}
use bit_cadence.Score.Steps.{
  Verification, review_entry, review_task, expire, judge, accept, log_each,
}
use bit_cadence.Score.Checkpoints.{
  after_gate, settle_decision, decide_entry, decide_checkpoint, read_word, note_decision,
  gate_decision,
}
use bit_cadence.Score.Histories.{
  Command, starts, finishes, reviews, expires, decides, gates_change, step, play,
}

start_entry-budget :
    (k actor role : String) (now : ℕ) (r : Run) (e : Entry)
    → (start_entry k actor role now r e).1.budget ≡ r.budget
unfolding start_entry
start_entry-budget k actor role now r e = ground arith

finish_entry-budget :
    (k : String) (token : Option Token) (actor : String) (evidence : Dict String) (now : ℕ)
    (r : Run) (e : Entry)
    → (finish_entry k token actor evidence now r e).1.budget ≡ r.budget
unfolding finish_entry
finish_entry-budget k token actor evidence now r e = ground arith

log_each-budget :
    (ts : List String) (k actor : String) (r : Run) → (log_each ts k actor r).budget ≡ r.budget
log_each-budget [] k actor r = refl
log_each-budget (t ∷ ts) k actor r = log_each-budget ts k actor _

accept-budget :
    (k actor : String) (r : Run) (e : Entry) (o : Option Verification)
    → (accept k actor r e o).1.budget ≡ r.budget
unfolding accept
accept-budget k actor r e none = refl
accept-budget k actor r e (some v) = ground (arith, log_each-budget v.event_types k actor r)

judge-budget :
    (k actor : String) (passed : Bool) (o : Option Verification) (claimed : Bool) (r : Run)
    (e : Entry)
    → (judge k actor passed o claimed r e).1.budget ≡ r.budget
unfolding judge
judge-budget k actor passed o claimed r e = ground (arith, accept-budget k actor r e o)

review_entry-budget :
    (k : String) (token : Option Token) (actor role : String) (passed : Bool)
    (o : Option Verification) (claimed : Bool) (now : ℕ) (r : Run) (e : Entry)
    → (review_entry k token actor role passed o claimed now r e).1.budget ≡ r.budget
unfolding review_entry
review_entry-budget k token actor role passed o claimed now r e =
    let t : Run = record r { review_actors = insert k actor r.review_actors } in
    ground (arith, judge-budget k actor passed o claimed t e)

after_gate-budget :
    (k actor : String) (d : GateStatus) (r : Run) (e : Entry)
    (c : Checked (DecisionRow × GateStore))
    → (after_gate k actor d r e c).1.budget ≡ r.budget
unfolding after_gate note_decision
after_gate-budget k actor d r e (err x) = refl
after_gate-budget k actor d r e (ok (row, store)) = ground arith

settle_decision-budget :
    (k actor word : String) (caller : Option Caller) (kind : Option GateKind) (reason : String)
    (r : Run) (e : Entry) (d : Option GateStatus) (store : Option GateStore)
    → (settle_decision k actor word caller kind reason r e d store).1.budget ≡ r.budget
unfolding settle_decision note_decision
settle_decision-budget k actor word caller kind reason r e none store = refl
settle_decision-budget k actor word caller kind reason r e (some d) none = ground arith
settle_decision-budget k actor word caller kind reason r e (some d) (some store) = ground (
  arith,
  after_gate-budget k actor d r e (gate_decision k actor word caller kind reason r e store),
)

decide_entry-budget :
    (k actor actor_kind word : String) (caller : Option Caller) (kind : Option GateKind)
    (reason : String) (r : Run) (e : Entry)
    → (decide_entry k actor actor_kind word caller kind reason r e).1.budget ≡ r.budget
unfolding decide_entry
decide_entry-budget k actor actor_kind word caller kind reason r e = ground (
  arith,
  settle_decision-budget k actor word caller kind reason r e (read_word word) r.gate_service,
)

at_time-budget :
    {A : Type 0} (now : ℕ) (r : Run) (next : Run → Answer A)
    → ((s : Run) → (next s).1.budget ≡ s.budget)
    → (at_time now r next).1.budget ≡ r.budget
at_time-budget now r next keep = elim (Bool-cases (ltb now r.clock)) [
  | inl back ↦ rw back refl
  | inr on ↦ rw on (keep (record r { clock = now }))
]

with_state-budget :
    {A : Type 0} (k : String) (r : Run) (next : Entry → Answer A)
    → ((e : Entry) → (next e).1.budget ≡ r.budget)
    → (with_state (lookup k r.states) r next).1.budget ≡ r.budget
with_state-budget k r next keep = elim (Option-cases (lookup k r.states)) [
  | inl e ↦ rw e refl
  | inr (e, p) ↦ rw p (keep e)
]

step-budget : (c : Command) (r : Run) → (step c r).budget ≡ r.budget
unfolding step start finish review_task expire decide_checkpoint
step-budget (starts k actor role now) r =
    at_time-budget {A = Token} now r
      (λ s. with_state {A = Token} (lookup k s.states) s (λ e. start_entry k actor role now s e))
      (λ s.
        with_state-budget {A = Token} k s (λ e. start_entry k actor role now s e)
          (λ e. start_entry-budget k actor role now s e))
step-budget (finishes k token actor evidence now) r =
    at_time-budget {A = Unit {0}} now r
      (λ s.
        with_state {A = Unit {0}} (lookup k s.states) s
          (λ e. finish_entry k token actor evidence now s e))
      (λ s.
        with_state-budget {A = Unit {0}} k s (λ e. finish_entry k token actor evidence now s e)
          (λ e. finish_entry-budget k token actor evidence now s e))
step-budget (reviews k token actor role passed o claimed now) r =
    at_time-budget {A = Unit {0}} now r
      (λ s.
        with_state {A = Unit {0}} (lookup k s.states) s
          (λ e. review_entry k token actor role passed o claimed now s e))
      (λ s.
        with_state-budget {A = Unit {0}} k s
          (λ e. review_entry k token actor role passed o claimed now s e)
          (λ e. review_entry-budget k token actor role passed o claimed now s e))
step-budget (expires now) r = ground arith
step-budget (decides k actor actor_kind word caller kind reason) r =
    with_state-budget {A = Unit {0}} k r
      (λ e. decide_entry k actor actor_kind word caller kind reason r e)
      (λ e. decide_entry-budget k actor actor_kind word caller kind reason r e)
step-budget (gates_change store) r = refl

-- The budget of a run stays what it was at the beginning, whatever steps are tried.
pub play-budget : (r : Run) (cs : List Command) → (play r cs).budget ≡ r.budget
unfolding play
play-budget r [] = refl
play-budget r (c ∷ cs) = play-budget (step c r) cs ∙ step-budget c r
