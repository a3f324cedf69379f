-- ===== src/Score/Examples.antt =====
-- Tests of the runs of scores, and their theorems at concrete inputs.
use bit_cadence.Prelude.{◌≡◌, refl, true, false, none, some, List, [], ◌∷◌, lookup, ok, is_ok}
use bit_cadence.Score.Policy.{
  GateKey, GateStore, Evidence, Caller, DecisionRow, decide, required_gates, approved,
  g08_launch_signoff,
}
use bit_cadence.Score.Plan.{Task, Plan, placed, no_progress, settle, dependencies}
use bit_cadence.Score.Run.{Run, Token, Entry, accepted, review, start, finish}
use bit_cadence.Score.Steps.{Verification, review_task}
use bit_cadence.Score.Open.{open_run, each, fresh_run}
use bit_cadence.Score.Histories.{Command, starts, finishes, expires, play, step}
use bit_cadence.Score.Begins.{IsWithin, open_run-play-IsSound}
use bit_cadence.Score.Verdicts.{review_task-verified}
use bit_cadence.Score.Gates.{decide-first, serve, requests, IsDecided}

abbrev build : Task
build = record {
  id = "build";
  goal = "a wheel";
  title = "Build";
  instructions = "Build the wheel";
  role = "builder";
  review_role = "checker";
  depends_on = [];
  resources = "repository" ∷ [];
  capabilities = "repository:read" ∷ [];
  evidence = "wheel" ∷ [];
  max_attempts = 2;
  timeout_seconds = 600;
  max_cost_cents = 40;
  checkpoint = none;
  on_reject = none;
  commit = none;
}

abbrev ship : Task
ship = record build { id = "G09"; depends_on = "build" ∷ []; max_cost_cents = 70 }

abbrev plan : Plan
plan = record {
  score_version = 1;
  id = "release";
  objective = "Ship the wheel";
  revision = 1;
  budget_cents = 500;
  max_parallel = 2;
  constraints = "no force push" ∷ [];
  launch_requires = "build" ∷ [];
  tasks = build ∷ ship ∷ [];
}

abbrev run : Run
unfolding fresh_run
run = fresh_run plan "d1" "r1" ("repository:read" ∷ []) 100 none "default" (each 0)

abbrev first_token : Token
first_token = record { run_id = "r1"; digest = "d1"; task_id = "build"; attempt = 1 }

abbrev commands : List Command
commands =
    starts "build" "ann" "builder" 5
    ∷ finishes "build" (some first_token) "ann" (("wheel", "sha256:1") ∷ []) 9
    ∷ []

run_opens :
    (open_run plan "d1" "r1" ("repository:read" ∷ []) 100 none "default" (each 0)).0 ≡ ok run
unfolding open_run
run_opens = refl

open_run-play-IsSound_example : IsWithin plan 100 (play run (expires 3 ∷ commands))
unfolding fresh_run
open_run-play-IsSound_example =
    open_run-play-IsSound plan "d1" "r1" ("repository:read" ∷ []) 100 none "default" (each 0) run
      (expires 3 ∷ commands) run_opens

abbrev in_review : Run
unfolding play
in_review = play run commands

abbrev built : Entry
built = record {
  task = build;
  status = review;
  attempt = 1;
  token = some first_token;
  author = some "ann";
  deadline = some 609;
  evidence = some (("wheel", "sha256:1") ∷ []);
  is_approved = false;
}

abbrev verdict : Verification
verdict = record {
  run_id = "r1";
  task_id = "build";
  attempt = 1;
  score_digest = "d1";
  reviewer_id = "bob";
  event_types = "artifact.verified" ∷ [];
}

review_task-verified_example :
    lookup "build"
      (review_task "build"
        (some first_token)
        "bob"
        "checker"
        true
        (some verdict)
        false
        20
        in_review).1.states
    ≡ some (record built { status = accepted })
unfolding play step start finish run required_gates review_task lookup
review_task-verified_example =
    (review_task-verified "build" (some first_token) "bob" "checker" (some verdict) false 20
        in_review built refl).1
      refl

-- The author may not accept the work.
own_review :
    is_ok
      (review_task "build"
        (some first_token)
        "ann"
        "checker"
        true
        (some verdict)
        false
        20
        in_review).0
    ≡ false
unfolding play step start finish run required_gates review_task lookup
own_review = refl

abbrev launch : GateKey
launch = record {
  org_id = "default";
  run_id = "r1";
  digest = "d1";
  task_id = "G09";
  kind = g08_launch_signoff;
}

abbrev owner : Caller
owner = record { auth_method = "session"; instance_id = "olga"; org_id = "" }

abbrev shown : Evidence
shown = record {
  projected_monthly_cents = some 0;
  target_branch = none;
  deploy_target = none;
  others = [];
}

abbrev asked_store : GateStore
unfolding serve
asked_store = serve (record { requests = []; decisions = [] }) (requests launch shown ∷ [])

abbrev signed : DecisionRow
signed = record { gate = launch; decision = approved; human_principal = "olga"; reason = "fine" }

abbrev signed_store : GateStore
signed_store = record {
  requests = record { key = launch; evidence = shown; status = approved } ∷ [];
  decisions = signed ∷ [];
}

decide-first_example : IsDecided launch owner "approve" "fine" asked_store (signed, signed_store)
unfolding decide serve
decide-first_example =
    decide-first launch owner "approve" "fine" asked_store (signed, signed_store) refl

build-ship : settle 2 (dependencies (ship ∷ build ∷ [])) [] ≡ placed ("G09" ∷ "build" ∷ [])
unfolding settle
build-ship = refl

-- Two tasks that wait for each other.
ship-ship :
    settle 2 (dependencies (ship ∷ record build { depends_on = "G09" ∷ [] } ∷ [])) [] ≡ no_progress
unfolding settle
ship-ship = refl
