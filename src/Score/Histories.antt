-- ===== src/Score/Histories.antt =====
-- Any sequence of steps of a run, refused ones included (scores.py, `SandboxRun`).
use bit_cadence.Prelude.{
  ℕ, ◌≡◌, refl, String, Bool, ◌&&◌, ◌||◌, not, Option, none, some, List, [], ◌∷◌, ◌++◌, arith, ltb,
  is_some, lookup, Dict, str_eq, Option-cases, Bool-cases, inl, inr, is_blank, ok, err,
}
use bit_cadence.Score.Policy.{Checked, GateKind, GateStore, Caller, GateStatus, DecisionRow}
use bit_cadence.Score.Plan.{is_nil}
use bit_cadence.Score.Run.{
  Entry, Run, Token, is_pending, Answer, at_time, with_state, start, start_entry, finish,
  finish_entry, gates_of,
}
use bit_cadence.Score.Steps.{
  Verification, review_entry, review_task, expire, expire_states, expire_events,
}
use bit_cadence.Score.Checkpoints.{
  after_gate, gate_decision, settle_decision, decide_entry, decide_checkpoint, read_word,
}
use bit_cadence.Score.Invariant.{IsSound}
use bit_cadence.Score.Frames.{still-IsSound, expire-IsSound}
use bit_cadence.Score.Dispatch.{start_entry-IsSound}
use bit_cadence.Score.Keeps.{finish_entry-IsSound, review_entry-IsSound, note_decision-IsSound}

after_gate-IsSound :
    (k actor : String) (d : GateStatus) (r : Run) (e : Entry)
    (c : Checked (DecisionRow × GateStore))
    → lookup k r.states ≡ some e
    → IsSound r
    → IsSound (after_gate k actor d r e c).1
unfolding after_gate
after_gate-IsSound k actor d r e (err x) p i = i
after_gate-IsSound k actor d r e (ok (row, store)) p i =
    note_decision-IsSound k actor d (record r { gate_service = some store }) e p
      (still-IsSound r _ (ground arith) refl i)

settle_decision-IsSound :
    (k actor word : String) (caller : Option Caller) (kind : Option GateKind) (reason : String)
    (r : Run) (e : Entry) (d : Option GateStatus) (store : Option GateStore)
    → lookup k r.states ≡ some e
    → IsSound r
    → IsSound (settle_decision k actor word caller kind reason r e d store).1
unfolding settle_decision
settle_decision-IsSound k actor word caller kind reason r e none store p i = i
settle_decision-IsSound k actor word caller kind reason r e (some d) none p i =
    elim (Bool-cases (is_nil (gates_of r e))) [
      | inl free ↦ rw (free, settle_decision) (note_decision-IsSound k actor d r e p i)
      | inr gated ↦ rw (gated, settle_decision) i
    ]
settle_decision-IsSound k actor word caller kind reason r e (some d) (some store) p i =
    elim (Bool-cases (is_nil (gates_of r e))) [
      | inl free ↦ rw (free, settle_decision) (note_decision-IsSound k actor d r e p i)
      | inr gated ↦
          rw (gated, settle_decision)
            (after_gate-IsSound k actor d r e
              (gate_decision k actor word caller kind reason r e store) p i)
    ]

decide_entry-IsSound :
    (k actor actor_kind word : String) (caller : Option Caller) (kind : Option GateKind)
    (reason : String) (r : Run) (e : Entry)
    → lookup k r.states ≡ some e
    → IsSound r
    → IsSound (decide_entry k actor actor_kind word caller kind reason r e).1
unfolding decide_entry
decide_entry-IsSound k actor actor_kind word caller kind reason r e p i =
    elim (Bool-cases (is_blank actor)) [
      | inl stop ↦ rw stop i
      | inr named ↦
          rw named
            (elim (Bool-cases (
              not (str_eq actor_kind "human")
              || not (is_some e.task.checkpoint || not (is_nil (gates_of r e))))) [
                | inl stop ↦ rw stop i
                | inr fit ↦
                    rw fit
                      (elim (Bool-cases
                        (not (is_nil (gates_of r e)) && not (is_some r.gate_service))) [
                          | inl stop ↦ rw stop i
                          | inr served ↦ rw served (elim (Bool-cases (not (is_pending e.status))) [
                            | inl stop ↦ rw stop i
                            | inr waits ↦ rw waits (
                                settle_decision-IsSound k actor word caller kind reason r e
                                  (read_word word) r.gate_service p i)
                          ])
                        ])
              ])
    ]

pub data Command : Type 0 where
  starts : String → String → String → ℕ → Command
  finishes : String → Option Token → String → Dict String → ℕ → Command
  reviews :
      String → Option Token → String → String → Bool → Option Verification → Bool → ℕ → Command
  expires : ℕ → Command
  decides : String → String → String → String → Option Caller → Option GateKind → String → Command
  gates_change : Option GateStore → Command  -- by others that share the service

unfoldable pub step : Command → Run → Run
step (starts k actor role now) r = (start k actor role now r).1
step (finishes k token actor evidence now) r = (finish k token actor evidence now r).1
step (reviews k token actor role passed o claimed now) r =
    (review_task k token actor role passed o claimed now r).1
step (expires now) r = (expire now r).1
step (decides k actor actor_kind word caller kind reason) r =
    (decide_checkpoint k actor actor_kind word caller kind reason r).1
step (gates_change store) r = record r { gate_service = store }

unfoldable pub play : Run → List Command → Run
play r [] = r
play r (c ∷ cs) = play (step c r) cs

-- What holds of a step's run at the time of the step and on the entry it is for.
at_time-IsSound :
    {A : Type 0} (now : ℕ) (r : Run) (next : Run → Answer A)
    → ((s : Run) → IsSound s → IsSound (next s).1)
    → IsSound r
    → IsSound (at_time now r next).1
at_time-IsSound now r next keep i = elim (Bool-cases (ltb now r.clock)) [
  | inl back ↦ rw back i
  | inr on ↦ rw on (keep (record r { clock = now }) (still-IsSound r _ (ground arith) refl i))
]

with_state-IsSound :
    {A : Type 0} (k : String) (r : Run) (next : Entry → Answer A)
    → ((e : Entry) → lookup k r.states ≡ some e → IsSound (next e).1)
    → IsSound r
    → IsSound (with_state (lookup k r.states) r next).1
with_state-IsSound k r next keep i = elim (Option-cases (lookup k r.states)) [
  | inl e ↦ rw e i
  | inr (e, p) ↦ rw p (keep e p)
]

step-IsSound : (c : Command) (r : Run) → IsSound r → IsSound (step c r)
unfolding step start finish review_task expire decide_checkpoint
step-IsSound (starts k actor role now) r i =
    at_time-IsSound now r
      (λ s. with_state {A = Token} (lookup k s.states) s (λ e. start_entry k actor role now s e))
      (λ s j.
        with_state-IsSound {A = Token} k s (λ e. start_entry k actor role now s e)
          (λ e p. start_entry-IsSound k actor role now s e p j) j)
      i
step-IsSound (finishes k token actor evidence now) r i =
    at_time-IsSound now r
      (λ s.
        with_state {A = Unit {0}} (lookup k s.states) s
          (λ e. finish_entry k token actor evidence now s e))
      (λ s j.
        with_state-IsSound {A = Unit {0}} k s (λ e. finish_entry k token actor evidence now s e)
          (λ e p. finish_entry-IsSound k token actor evidence now s e p j) j)
      i
step-IsSound (reviews k token actor role passed o claimed now) r i =
    at_time-IsSound now r
      (λ s.
        with_state {A = Unit {0}} (lookup k s.states) s
          (λ e. review_entry k token actor role passed o claimed now s e))
      (λ s j.
        with_state-IsSound {A = Unit {0}} k s
          (λ e. review_entry k token actor role passed o claimed now s e)
          (λ e p. review_entry-IsSound k token actor role passed o claimed now s e p j) j)
      i
step-IsSound (expires now) r i =
    at_time-IsSound {A = Unit {0}} now r
      (λ s. (
        ok tt,
        record s {
          states = expire_states now s.states;
          events = s.events ++ expire_events now s.states;
        },
      ))
      (λ s j.
        expire-IsSound now s
          (record s {
            states = expire_states now s.states;
            events = s.events ++ expire_events now s.states;
          })
          (ground arith) refl j)
      i
step-IsSound (decides k actor actor_kind word caller kind reason) r i =
    with_state-IsSound {A = Unit {0}} k r
      (λ e. decide_entry k actor actor_kind word caller kind reason r e)
      (λ e p. decide_entry-IsSound k actor actor_kind word caller kind reason r e p i) i
step-IsSound (gates_change store) r i = still-IsSound r _ (ground arith) refl i

-- Whatever steps are tried on a sound run, it stays sound: what is reserved stays within the budget, no more
-- tasks are in work than the limit allows and none of them share a resource, a task that has begun has
-- all its dependencies accepted and its capabilities granted, no task is tried more often than it may
-- be, and a task in work has an author, a deadline, and the token of its current attempt.
pub play-IsSound : (r : Run) (cs : List Command) → IsSound r → IsSound (play r cs)
unfolding play
play-IsSound r [] i = i
play-IsSound r (c ∷ cs) i = play-IsSound (step c r) cs (step-IsSound c r i)
