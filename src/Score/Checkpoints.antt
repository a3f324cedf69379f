-- ===== src/Score/Checkpoints.antt =====
-- The decisions of humans on the tasks of a run (src/mco/orchestrator/scores.py, `decide_checkpoint`).
use bit_cadence.Prelude.{
  String, Bool, ◌&&◌, ◌||◌, not, Option, none, some, List, [], ◌∷◌, ◌++◌, if◌then◌else◌, is_some,
  str_eq, lookup, any_by, is_blank, ok, err, ◌>>=◌, ◌>>◌, require,
}
use bit_cadence.Score.Policy.{
  Checked, GateKind, GateStore, GateStatus, DecisionRow, Caller, same_kind, decide, approved,
  rejected, is_approved, bad_string, no_gate_service, caller_mismatch, gate_kind_needed,
  gate_kind_inapplicable, not_human, bad_decision, not_pending,
}
use bit_cadence.Score.Plan.{is_nil}
use bit_cadence.Score.Run.{
  is_pending, Entry, human, Run, log, put, key_of, Answer, with_state, gates_of,
}

-- what a decision leaves: the approval, the record of it and its event
unfoldable pub note_decision : String → String → GateStatus → Run → Entry → Run
note_decision k actor d r e = log (human d) k (some actor) (
    put k (record e { is_approved = is_approved d })
      (record r {
        checkpoint_decisions =
            r.checkpoint_decisions ++ record { task = k; decision = d; actor = actor } ∷ [];
      }))

abbrev pub has_kind : GateKind → List GateKind → Bool
has_kind k = any_by (λ g. same_kind g k)

-- the gate that is meant: the one there is, if none is named
unfoldable pub choose_gate : Option GateKind → List GateKind → Checked GateKind
choose_gate (some k) gates = do require (has_kind k gates) gate_kind_inapplicable; ok k
choose_gate none (k ∷ []) = ok k
choose_gate none gates = err gate_kind_needed

-- the service of the gates decides, and its store stays as it leaves it
unfoldable pub after_gate :
    String
    → String
    → GateStatus
    → Run
    → Entry
    → Checked (DecisionRow × GateStore)
    → Answer (Unit {0})
unfolding note_decision
after_gate k actor d r e (err x) = (err x, r)
after_gate k actor d r e (ok (row, store)) =
    (ok tt, note_decision k actor d (record r { gate_service = some store }) e)

-- the decision of a gate of the owner's policy
unfoldable pub gate_decision :
    String
    → String
    → String
    → Option Caller
    → Option GateKind
    → String
    → Run
    → Entry
    → GateStore
    → Checked (DecisionRow × GateStore)
unfolding choose_gate
gate_decision k actor word none kind reason r e store = err caller_mismatch
gate_decision k actor word (some c) kind reason r e store = do
  require (str_eq c.instance_id actor) caller_mismatch
  g ← choose_gate kind (gates_of r e)
  decide (key_of r k g) c word reason store

abbrev pub read_word : String → Option GateStatus
read_word w =
    if str_eq w "approved"
    then some approved
    else if str_eq w "rejected"
    then some rejected
    else none

-- once the actor and the state of the task are right
unfoldable pub settle_decision :
    String
    → String
    → String
    → Option Caller
    → Option GateKind
    → String
    → Run
    → Entry
    → Option GateStatus
    → Option GateStore
    → Answer (Unit {0})
unfolding gates_of after_gate gate_decision note_decision
settle_decision k actor word caller kind reason r e none store = (err bad_decision, r)
settle_decision k actor word caller kind reason r e (some d) none =
    if is_nil (gates_of r e) then (ok tt, note_decision k actor d r e) else (err no_gate_service, r)
settle_decision k actor word caller kind reason r e (some d) (some store) =
    if is_nil (gates_of r e)
    then (ok tt, note_decision k actor d r e)
    else after_gate k actor d r e (gate_decision k actor word caller kind reason r e store)

unfoldable pub decide_entry :
    String
    → String
    → String
    → String
    → Option Caller
    → Option GateKind
    → String
    → Run
    → Entry
    → Answer (Unit {0})
unfolding gates_of settle_decision
decide_entry k actor actor_kind word caller kind reason r e =
    if is_blank actor
    then (err bad_string, r)
    else if not (str_eq actor_kind "human")
        || not (is_some e.task.checkpoint || not (is_nil (gates_of r e)))
    then (err not_human, r)
    else if not (is_nil (gates_of r e)) && not (is_some r.gate_service)
    then (err no_gate_service, r)
    else if not (is_pending e.status)
    then (err not_pending, r)
    else settle_decision k actor word caller kind reason r e (read_word word) r.gate_service

unfoldable pub decide_checkpoint :
    String
    → String
    → String
    → String
    → Option Caller
    → Option GateKind
    → String
    → Run
    → Answer (Unit {0})
unfolding decide_entry
decide_checkpoint k actor actor_kind word caller kind reason r =
    with_state (lookup k r.states) r
      (λ e. decide_entry k actor actor_kind word caller kind reason r e)
