-- ===== src/Workflows/Examples.antt =====
-- Tests of the workflows, and their theorems at concrete inputs.
use bit_cadence.Prelude.{
  ℕ, suc, zero, suc, zero, ◌≡◌, refl, String, true, false, none, some, List, [], ◌∷◌, lookup,
  insert, ok, err, Raises,
}
use bit_cadence.Workflows.{
  Step, Document, mapping, Fault, cycle, failed_step, Request, Reply, topo_order, load_workflow,
  submit_workflow, index_from, visit, each, marked, finished, ids_of, check_step, check_steps,
  check_deps, check_all_deps, jobs_of, request, created_id, send_step, submit_step, submit_all,
  submit_ordered, ordered_steps,
}
use bit_cadence.Workflows.Order.{Ordered, topo_order-Ordered}
use bit_cadence.Workflows.Loading.{Loaded, entries_of, load_workflow-Loaded}
use bit_cadence.Workflows.Submission.{Outcome, submit_workflow-Outcome}

abbrev step : String → List String → Step
step id deps = record {
  id = id;
  role = "codex";
  title = id;
  instructions = "";
  on_instance = none;
  depends_on = deps;
  requires_approval = false;
  max_retries = 0;
  escalate_to_role = none;
}

abbrev pipeline : List Step
pipeline = step "ship" ("build" ∷ []) ∷ step "build" ("research" ∷ []) ∷ step "research" [] ∷ []

abbrev circle : List Step
circle = step "a" ("b" ∷ []) ∷ step "b" ("a" ∷ []) ∷ []

abbrev release : Document
release = mapping "release" (mapping (step "ship" ("build" ∷ [])) ∷ mapping (step "build" []) ∷ [])

-- a gateway that numbers its jobs and has room for one
abbrev gateway : Request → ℕ → Reply × ℕ
gateway r zero = (record { success = true; job_id = some "job-1" }, 1)
gateway r (suc n) = (record { success = false; job_id = none }, suc n)

abbrev order_of : Raises Fault (List Step) → List String
order_of (ok order) = ids_of order
order_of (err fault) = []

topo_order-pipeline : order_of (topo_order pipeline) ≡ "research" ∷ "build" ∷ "ship" ∷ []
unfolding topo_order each visit marked finished index_from lookup insert
topo_order-pipeline = refl

topo_order-circle : topo_order circle ≡ err (cycle "a")
unfolding topo_order each visit marked finished index_from lookup insert
topo_order-circle = refl

submit_workflow-release :
    submit_workflow gateway "run" release 0
    ≡ (err (failed_step "ship" (("build", "job-1") ∷ [])), 1)
unfolding submit_workflow submit_ordered submit_all submit_step send_step request created_id jobs_of
    ordered_steps load_workflow check_step check_steps check_deps check_all_deps topo_order each
    visit marked finished index_from lookup insert
submit_workflow-release = refl

topo_order-Ordered_example : Ordered pipeline (topo_order pipeline)
topo_order-Ordered_example = topo_order-Ordered pipeline

load_workflow-Loaded_example : Loaded (entries_of release) (load_workflow release)
load_workflow-Loaded_example = load_workflow-Loaded release

submit_workflow-Outcome_example :
    Outcome gateway "run" 0 (load_workflow release) (submit_workflow gateway "run" release 0)
submit_workflow-Outcome_example = submit_workflow-Outcome gateway "run" release 0
