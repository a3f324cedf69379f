-- ===== src/Score/Open.antt =====
-- The beginning of a run of a score (src/mco/orchestrator/scores.py, `SandboxRun.__init__`). The digest of
-- the score is a text that the caller gives.
use bit_cadence.Prelude.{
  ℕ, String, false, Option, none, some, List, [], ◌∷◌, ltb, if◌then◌else◌, get_or, Dict, lookup, ok,
  err, ◌>>◌, require,
}
use bit_cadence.Score.Policy.{
  Checked, GateKind, GateKey, GateStore, Evidence, required_gates, request, unknown_task,
  other_kind,
}
use bit_cadence.Score.Plan.{Task, Plan, load_score, check_text, check_texts, ids_of, within}
use bit_cadence.Score.Run.{Run}
use bit_cadence.Score.Steps.{fresh_states, policy_evidence}

-- projected_monthly_cents: one number for every task, or a table
pub data Projection : Type 0 where
  each : ℕ → Projection
  by_task : Dict ℕ → Projection

abbrev pub projected_of : Projection → String → ℕ
projected_of (each n) k = n
projected_of (by_task d) k = get_or 0 (lookup k d)

abbrev pub columns : Dict ℕ → List String
columns [] = []
columns ((k, n) ∷ d) = k ∷ columns d

unfoldable pub check_projection : List String → Projection → Checked (Unit {0})
check_projection ids (each n) = ok tt
check_projection ids (by_task d) = require (within (columns d) ids) unknown_task

-- The gates of one task, and whether all were taken; the gates asked for before a refused one stay.
unfoldable pub request_gates :
    GateKey → Evidence → List GateKind → GateStore → Checked (Unit {0}) × GateStore
request_gates key e [] s = (ok tt, s)
request_gates key e (k ∷ ks) s = elim (request (record key { kind = k }) e s) [
  | err x ↦ (err x, s)
  | ok (row, s') ↦ request_gates key e ks s'
]

-- the gates of every task, in order
unfoldable pub request_all :
    (String → GateKey) → (String → ℕ) → List Task → GateStore → Checked (Unit {0}) × GateStore
unfolding request_gates
request_all key projected [] s = (ok tt, s)
request_all key projected (t ∷ ts) s =
    let (answer, s') =
      request_gates (key t.id) (policy_evidence (projected t.id))
        (required_gates t.id (projected t.id)) s in
    elim answer [ err x ↦ (err x, s') | ok _ ↦ request_all key projected ts s' ]

unfoldable pub check_start : Plan → String → List String → String → Projection → Checked (Unit {0})
unfolding load_score check_texts check_projection
check_start p run_id grants org_id projection = do
  load_score p
  check_text run_id
  check_texts false grants
  check_text org_id
  check_projection (ids_of p.tasks) projection

abbrev pub smaller : ℕ → ℕ → ℕ
smaller a b = if ltb b a then b else a

unfoldable pub fresh_run :
    Plan → String → String → List String → ℕ → Option GateStore → String → Projection → Run
unfolding fresh_states
fresh_run p digest run_id grants authorized gate_service org_id projection = record {
  run_id = run_id;
  org_id = org_id;
  fingerprint = digest;
  max_parallel = p.max_parallel;
  launch_requires = p.launch_requires;
  grants = grants;
  budget = smaller p.budget_cents authorized;
  reserved = 0;
  states = fresh_states p.tasks;
  events = [];
  clock = 0;
  gate_service = gate_service;
  projected = projected_of projection;
  review_actors = [];
  checkpoint_decisions = [];
}

abbrev pub gate_key : String → String → String → String → GateKey
gate_key org_id run_id digest task = record {
  org_id = org_id;
  run_id = run_id;
  digest = digest;
  task_id = task;
  kind = other_kind "";
}

-- a checked run, once its gates are asked for, and the service's store as it is left
unfoldable pub asked : Run → Checked (Unit {0}) × GateStore → Checked Run × Option GateStore
asked r (err x, s) = (err x, some s)
asked r (ok _, s) = (ok (record r { gate_service = some s }), some s)

unfoldable pub with_gates : Plan → Run → Option GateStore → Checked Run × Option GateStore
unfolding request_all asked
with_gates p r none = (ok r, none)
with_gates p r (some s) =
    asked r (request_all (gate_key r.org_id r.run_id r.fingerprint) r.projected p.tasks s)

unfoldable pub open_run :
    Plan
    → String
    → String
    → List String
    → ℕ
    → Option GateStore
    → String
    → Projection
    → Checked Run × Option GateStore
unfolding check_start fresh_run with_gates
open_run p digest run_id grants authorized gate_service org_id projection =
    elim (check_start p run_id grants org_id projection) [
      | err x ↦ (err x, gate_service)
      | ok _ ↦
          with_gates p (fresh_run p digest run_id grants authorized gate_service org_id projection)
            gate_service
    ]
