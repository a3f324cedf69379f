-- ===== src/Score/Policy.antt =====
-- The human checkpoints of a score (src/mco/orchestrator/score_policy.py). The name that uuid5 makes of a
-- gate's binding is taken as the binding itself.
use bit_cadence.Prelude.{
  ℕ, String, Bool, true, false, ◌&&◌, ◌||◌, not, Option, none, some, List, [], ◌∷◌, ◌++◌, ltb,
  if◌then◌else◌, is_some, str_eq, Dict, is_blank, strip, ok, err, Raises, ◌>>=◌, ◌>>◌, require,
}
use bit_cadence.Board.{same_text, same_number}

pub data ScoreError : Type 0 where
  bad_string bad_integer bad_strings duplicate_entries : ScoreError
  unsupported_version bad_task_count bad_identifier duplicate_task same_roles : ScoreError
  own_reject commit_forbidden unknown_dependency unknown_reject reject_cycle : ScoreError
  reject_independent unknown_requirement dependency_cycle : ScoreError
  gate_kind_refused gate_incomplete no_evidence wrong_gate_task below_cap no_target : ScoreError
  evidence_mismatch not_human no_principal bad_decision gate_missing already_decided : ScoreError
  duplicate_decision no_gate_service caller_mismatch gate_kind_needed gate_kind_inapplicable :
      ScoreError
  clock_backwards unknown_task not_dispatchable stale_claim wrong_author bad_evidence : ScoreError
  not_independent not_authoritative unverified wrong_binding wrong_reviewer not_pending : ScoreError

abbrev pub Checked : Type 0 → Type 0
Checked A = Raises ScoreError A

abbrev pub spend_cap_cents : ℕ
spend_cap_cents = 15000

pub data GateKind : Type 0 where
  g08_launch_signoff spend_above_cap task_checkpoint gateway_restart_authorization : GateKind
  other_kind : String → GateKind

abbrev pub is_known : GateKind → Bool
is_known (other_kind s) = false
is_known _ = true

unfoldable pub same_kind : GateKind → GateKind → Bool
same_kind g08_launch_signoff g08_launch_signoff = true
same_kind spend_above_cap spend_above_cap = true
same_kind task_checkpoint task_checkpoint = true
same_kind gateway_restart_authorization gateway_restart_authorization = true
same_kind (other_kind a) (other_kind b) = str_eq a b
same_kind _ _ = false

-- task_id.upper() == "G09"
abbrev pub is_g09 : String → Bool
is_g09 t = str_eq t "G09" || str_eq t "g09"

unfoldable pub required_gates : String → ℕ → List GateKind
required_gates task projected =
    (if is_g09 task then g08_launch_signoff ∷ [] else [])
    ++ (if ltb spend_cap_cents projected then spend_above_cap ∷ [] else [])

-- what a gate is bound to, which names it
pub record GateKey : Type 0 where
  pub org_id : String
  pub run_id : String
  pub digest : String
  pub task_id : String
  pub kind : GateKind

unfoldable pub same_key : GateKey → GateKey → Bool
unfolding same_kind
same_key a b =
    str_eq a.org_id b.org_id
    && str_eq a.run_id b.run_id
    && str_eq a.digest b.digest
    && str_eq a.task_id b.task_id
    && same_kind a.kind b.kind

-- The fields that the policy reads, where they have the type it asks for; the others as texts.
pub record Evidence : Type 0 where
  pub projected_monthly_cents : Option ℕ
  pub target_branch : Option String
  pub deploy_target : Option String
  pub others : Dict String

abbrev pub same_texts : Dict String → Dict String → Bool
same_texts [] [] = true
same_texts ((k, a) ∷ d) ((j, b) ∷ e) = str_eq k j && str_eq a b && same_texts d e
same_texts _ _ = false

unfoldable pub same_evidence : Evidence → Evidence → Bool
same_evidence a b =
    same_number a.projected_monthly_cents b.projected_monthly_cents
    && same_text a.target_branch b.target_branch
    && same_text a.deploy_target b.deploy_target
    && same_texts a.others b.others

abbrev pub no_fields : Dict String → Bool
no_fields [] = true
no_fields (x ∷ d) = false

unfoldable pub is_empty_evidence : Evidence → Bool
is_empty_evidence e =
    not (is_some e.projected_monthly_cents)
    && not (is_some e.target_branch)
    && not (is_some e.deploy_target)
    && no_fields e.others

pub data GateStatus : Type 0 where
  pending approved rejected : GateStatus

abbrev pub is_pending : GateStatus → Bool
is_pending pending = true
is_pending _ = false

abbrev pub is_approved : GateStatus → Bool
is_approved approved = true
is_approved _ = false

pub record GateRow : Type 0 where
  pub key : GateKey
  pub evidence : Evidence
  pub status : GateStatus

pub record DecisionRow : Type 0 where
  pub gate : GateKey
  pub decision : GateStatus
  pub human_principal : String
  pub reason : String

pub record GateStore : Type 0 where
  pub requests : List GateRow
  pub decisions : List DecisionRow

unfoldable pub find_gate : GateKey → List GateRow → Option GateRow
unfolding same_key
find_gate k [] = none
find_gate k (g ∷ gs) = if same_key g.key k then some g else find_gate k gs

unfoldable pub find_decision : GateKey → List DecisionRow → Option DecisionRow
unfolding same_key
find_decision k [] = none
find_decision k (d ∷ ds) = if same_key d.gate k then some d else find_decision k ds

abbrev over_cap : Option ℕ → Bool
over_cap none = false
over_cap (some n) = ltb spend_cap_cents n

abbrev pub is_filled : Option String → Bool
is_filled none = false
is_filled (some s) = not (is_blank s)

-- the tests on the evidence of each kind of gate
unfoldable pub kind_allows : GateKey → Evidence → Checked (Unit {0})
kind_allows k e = elim k.kind [
  | g08_launch_signoff ↦ require (is_g09 k.task_id) wrong_gate_task
  | spend_above_cap ↦ require (over_cap e.projected_monthly_cents) below_cap
  | gateway_restart_authorization ↦
      require (is_filled e.target_branch && is_filled e.deploy_target) no_target
  | _ ↦ ok tt
]

-- an existing gate is answered, a new one is put down
unfoldable pub request_row :
    GateKey → Evidence → Option GateRow → GateStore → Checked (GateRow × GateStore)
unfolding same_evidence
request_row k e none s =
    let row : GateRow = record { key = k; evidence = e; status = pending } in
    ok (row, record s { requests = s.requests ++ row ∷ [] })
request_row k e (some g) s = do require (same_evidence g.evidence e) evidence_mismatch; ok (g, s)

unfoldable pub request : GateKey → Evidence → GateStore → Checked (GateRow × GateStore)
unfolding kind_allows request_row find_gate is_empty_evidence
request k e s = do
  require (is_known k.kind) gate_kind_refused
  require
      (not (is_blank k.org_id)
        && not (is_blank k.run_id)
        && not (is_blank k.digest)
        && not (is_blank k.task_id))
      gate_incomplete
  require (not (is_empty_evidence e)) no_evidence
  kind_allows k e
  request_row k e (find_gate k s.requests) s

unfoldable pub decision_for : GateKey → GateStore → Option DecisionRow
unfolding find_gate find_decision
decision_for k s = if is_some (find_gate k s.requests) then find_decision k s.decisions else none

abbrev pub grants : Option DecisionRow → Bool
grants none = false
grants (some d) = is_approved d.decision

-- `GateService.approved`
unfoldable pub is_granted : GateKey → GateStore → Bool
unfolding decision_for
is_granted k s = grants (decision_for k s)

pub record Caller : Type 0 where
  pub auth_method : String
  pub instance_id : String
  pub org_id : String

-- `authenticated_human`
unfoldable pub authenticated_human : Caller → Checked String
authenticated_human c = do
  require (str_eq c.auth_method "session" || str_eq c.auth_method "trusted_header") not_human
  require (not (is_blank (strip c.instance_id))) no_principal
  ok (strip c.instance_id)

-- "approve" and "reject" are taken for the words that are stored
unfoldable pub read_decision : String → Checked GateStatus
read_decision d =
    if str_eq d "approve" || str_eq d "approved"
    then ok approved
    else if str_eq d "reject" || str_eq d "rejected"
    then ok rejected
    else err bad_decision

unfoldable pub set_status : GateKey → GateStatus → List GateRow → List GateRow
unfolding same_key
set_status k st [] = []
set_status k st (g ∷ gs) =
    let rest = set_status k st gs in
    if same_key g.key k && is_pending g.status then record g { status = st } ∷ rest else g ∷ rest

abbrev pub org_of : Caller → String
org_of c = if str_eq c.org_id "" then "default" else c.org_id

-- the insertion, which the unique gate of a decision serialises, and the status of the request
unfoldable pub decide_row :
    GateKey
    → GateStatus
    → String
    → String
    → Option GateRow
    → GateStore
    → Checked (DecisionRow × GateStore)
unfolding set_status find_decision
decide_row k st principal reason none s = err gate_missing
decide_row k st principal reason (some g) s = do
  require (is_pending g.status) already_decided
  require (not (is_some (find_decision k s.decisions))) duplicate_decision
  (let row : DecisionRow = record {
    gate = k;
    decision = st;
    human_principal = principal;
    reason = reason;
  } in
      ok (
        row,
        record { requests = set_status k st s.requests; decisions = s.decisions ++ row ∷ [] },
      ))

unfoldable pub decide :
    GateKey → Caller → String → String → GateStore → Checked (DecisionRow × GateStore)
unfolding authenticated_human read_decision decide_row find_gate
decide k c d reason s = do
  principal ← authenticated_human c
  st ← read_decision d
  require (str_eq k.org_id (org_of c)) gate_missing
  decide_row k st principal reason (find_gate k s.requests) s
