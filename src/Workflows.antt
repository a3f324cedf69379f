-- ===== src/Workflows.antt =====
-- Workflows: steps with dependencies, checked, ordered and submitted as jobs
-- (src/mco/orchestrator/workflows.py).
use bit_cadence.Prelude.{
  ℕ, zero, suc, ◌≡◌, String, Bool, true, false, Option, none, some, List, [], ◌∷◌, ◌++◌, length,
  contains, if◌then◌else◌, Dict, lookup, insert, not, ◌&&◌, ◌||◌, str_eq, truthy, is_some, Raises,
  ok, err, require, ◌>>=◌, ◌>>◌,
}
pub mod Paths
pub mod Visits
pub mod Descent
pub mod Order
pub mod Loading
pub mod Submission
mod Examples

-- A step of a workflow's list, by the keys that the module reads. A text that is absent is the empty
-- one where the module only asks if it is true.
pub record Step : Type 0 where
  pub id : String
  pub role : String
  pub title : String
  pub instructions : String
  pub on_instance : Option String
  pub depends_on : List String
  pub requires_approval : Bool
  pub max_retries : ℕ
  pub escalate_to_role : Option String

-- An entry of the list `steps`, and what the YAML text holds.
pub data Entry : Type 0 where
  mapping : Step → Entry
  other : Entry

pub data Document : Type 0 where
  mapping : String → List Entry → Document
  without_steps : String → Document
  other : Document

-- The messages of `WorkflowError`; `key_error` is Python's `KeyError`, `endless` a recursion that the
-- fuel of the model does not reach.
pub data Fault : Type 0 where
  not_a_mapping : Fault
  no_name : Fault
  no_steps : Fault
  step_not_a_mapping : Fault
  no_id : Fault
  duplicate_id : String → Fault
  no_role : String → Fault
  no_title : String → Fault
  unknown_dependency : String → String → Fault
  cycle : String → Fault
  failed_step : String → Dict String → Fault
  key_error : String → Fault
  endless : Fault

abbrev pub ids_of : List Step → List String
ids_of [] = []
ids_of (s ∷ ss) = s.id ∷ ids_of ss

-- by_id = {s["id"]: s for s in steps}
pub index_from : Dict Step → List Step → Dict Step
index_from by_id [] = by_id
index_from by_id (s ∷ ss) = index_from (insert s.id s by_id) ss

abbrev pub by_id : List Step → Dict Step
by_id = index_from []

pub data Mark : Type 0 where
  visiting : Mark
  done : Mark

-- what `visit` changes: the marks and the order so far
pub record Trail : Type 0 where
  pub state : Dict Mark
  pub ordered : List Step

pub marked : String → Trail → Trail
marked id t = record t { state = insert id visiting t.state }

pub finished : Step → String → Trail → Trail
finished s id t = record { state = insert id done t.state; ordered = t.ordered ++ (s ∷ []) }

-- for x in xs: visit(x)
pub each : (String → Trail → Raises Fault Trail) → List String → Trail → Raises Fault Trail
each visit [] t = ok t
each visit (x ∷ xs) t = visit x t >>= each visit xs

pub visit : ℕ → Dict Step → String → Trail → Raises Fault Trail
visit zero steps id t = err endless
visit (suc n) steps id t = elim (lookup id t.state) [
  | some done ↦ ok t
  | some visiting ↦ err (cycle id)
  | none ↦ elim (lookup id steps) [
    | none ↦ err (key_error id)
    | some s ↦ each (visit n steps) s.depends_on (marked id t) >>= λ u. ok (finished s id u)
  ]
]

abbrev pub no_marks : Trail
no_marks = record { state = []; ordered = [] }

-- Each visit in a visit marks a step that had no mark, so that one more than the steps is fuel enough.
pub topo_order : List Step → Raises Fault (List Step)
topo_order steps =
    each (visit (suc (length steps)) (by_id steps)) (ids_of steps) no_marks >>= λ t. ok t.ordered

-- what the first loop of `load_workflow` asks of a step
pub check_step : List String → Step → Raises Fault (Unit {0})
check_step seen s =
    require (not (str_eq s.id "")) no_id
    >> require (not (contains s.id seen)) (duplicate_id s.id)
    >> require (not (str_eq s.role "")) (no_role s.id)
    >> require (not (str_eq s.title "" && str_eq s.instructions "")) (no_title s.id)

pub check_steps : List String → List Entry → Raises Fault (List Step)
check_steps seen [] = ok []
check_steps seen (other ∷ es) = err step_not_a_mapping
check_steps seen (mapping s ∷ es) =
    check_step seen s >> (check_steps (s.id ∷ seen) es >>= λ ss. ok (s ∷ ss))

pub check_deps : String → List String → List String → Raises Fault (Unit {0})
check_deps id seen [] = ok tt
check_deps id seen (d ∷ ds) =
    require (contains d seen) (unknown_dependency id d) >> check_deps id seen ds

pub check_all_deps : List String → List Step → Raises Fault (Unit {0})
check_all_deps seen [] = ok tt
check_all_deps seen (s ∷ ss) = check_deps s.id seen s.depends_on >> check_all_deps seen ss

pub record Workflow : Type 0 where
  pub name : String
  pub steps : List Step

abbrev pub is_list_empty : List Entry → Bool
is_list_empty [] = true
is_list_empty (e ∷ es) = false

pub load_workflow : Document → Raises Fault Workflow
load_workflow other = err not_a_mapping
load_workflow (without_steps name) = require (not (str_eq name "")) no_name >> err no_steps
load_workflow (mapping name entries) =
    require (not (str_eq name "")) no_name
    >> require (not (is_list_empty entries)) no_steps
    >> (check_steps [] entries >>= λ ss.
        check_all_deps (ids_of ss) ss
        >> (topo_order ss >>= λ order. ok (record { name = name; steps = ss })))

-- the arguments of `client.send`; the title that is made of the name and the id is left to the client
pub data Title : Type 0 where
  given : String → Title
  made : String → String → Title

pub record Request : Type 0 where
  pub to_role : String
  pub title : Title
  pub instructions : String
  pub to_instance : Option String
  pub depends_on : List String
  pub requires_approval : Bool
  pub max_retries : ℕ
  pub escalate_to_role : Option String
  pub workflow_name : String
  pub workflow_run : String
  pub workflow_step : String

-- what the gateway answers: `success` and the id of the job in it
pub record Reply : Type 0 where
  pub success : Bool
  pub job_id : Option String

-- [job_ids[d] for d in depends_on]
pub jobs_of : Dict String → List String → Raises Fault (List String)
jobs_of job_ids [] = ok []
jobs_of job_ids (d ∷ ds) = elim (lookup d job_ids) [
  | none ↦ err (key_error d)
  | some j ↦ jobs_of job_ids ds >>= λ js. ok (j ∷ js)
]

pub request : String → String → Step → List String → Request
request name run s jobs = record {
  to_role = s.role;
  title = if str_eq s.title "" then made name s.id else given s.title;
  instructions = if str_eq s.instructions "" then s.title else s.instructions;
  to_instance = s.on_instance;
  depends_on = jobs;
  requires_approval = s.requires_approval;
  max_retries = s.max_retries;
  escalate_to_role = s.escalate_to_role;
  workflow_name = name;
  workflow_run = run;
  workflow_step = s.id;
}

-- `not res.get("success") or not job_id`, and the id otherwise
pub created_id : Reply → Option String
created_id r = if r.success && truthy r.job_id then r.job_id else none

-- the name, and the steps in the order of their submission
pub ordered_steps : Document → Raises Fault (String × List Step)
ordered_steps document =
    load_workflow document >>= λ f. topo_order f.steps >>= λ order. ok (f.name, order)

-- The gateway is outside: each call of `send` changes its state `W`.
module _ {W : Type 0} (send : Request → W → Reply × W) where
  pub send_step :
      String → String → Step → Dict String → List String → W → Raises Fault (Dict String) × W
  send_step name run s job_ids jobs w =
      let (reply, w') = send (request name run s jobs) w in
      (
        elim (created_id reply) [
          | none ↦ err (failed_step s.id job_ids)
          | some j ↦ ok (insert s.id j job_ids)
        ],
        w',
      )

  pub submit_step : String → String → Step → Dict String → W → Raises Fault (Dict String) × W
  submit_step name run s job_ids w = elim (jobs_of job_ids s.depends_on) [
    | err fault ↦ (err fault, w)
    | ok jobs ↦ send_step name run s job_ids jobs w
  ]

  pub submit_all : String → String → List Step → Dict String → W → Raises Fault (Dict String) × W
  submit_all name run [] job_ids w = (ok job_ids, w)
  submit_all name run (s ∷ ss) job_ids w =
      let (created, w') = submit_step name run s job_ids w in
      elim created [
        | err fault ↦ (err fault, w')
        | ok job_ids' ↦ submit_all name run ss job_ids' w'
      ]

  pub submit_ordered :
      String → Raises Fault (String × List Step) → W → Raises Fault (Dict String) × W
  submit_ordered run (err fault) w = (err fault, w)
  submit_ordered run (ok (name, order)) w = submit_all name run order [] w

  pub submit_workflow : String → Document → W → Raises Fault (Dict String) × W
  submit_workflow run document = submit_ordered run (ordered_steps document)
