-- ===== src/Schedules/Examples.antt =====
-- Tests of the scheduler, and its theorems at concrete inputs.
use bit_cadence.Prelude.{
  Dict, ℕ, ◌+◌, ◌%◌, ◌*◌, ◌/◌, ◌≤◌, ◌≡◌, refl, arith, true, false, none, some, List, [], ◌∷◌,
  lookup, insert, is_some,
}
use bit_cadence.Schedules.Due.{
  Schedule, ScheduleState, Host, skip, loop, due_schedules, all_iterations,
}
use bit_cadence.Schedules.Launch.{Launcher, Outside, launch, has_active_jobs, any_active}
use bit_cadence.Schedules.Config.{RawLauncher, RawSchedule, parse_config}
use bit_cadence.Schedules.Valid.{IsValid, parse_config-IsValid}
use bit_cadence.Schedules.Fires.{fires, named}
use bit_cadence.Schedules.Bounds.{Turn, run_ticks, run_ticks-Capped}
use bit_cadence.Schedules.Storage.{
  Iso, holds_states, save_states, load_state, load_state-save_states,
}

abbrev utc : Host
utc = record {
  calendar = record { month = λ d. 1; day = λ d. d % 28 + 1; weekday = λ d. d % 7 };
  local_of = λ z t. record { date = t / 86400; clock = (t % 86400) / 60 };
  instant_of = λ z m. m.date * 86400 + m.clock * 60;
}

-- a gateway that numbers its jobs, and on which each is over at once
abbrev gateway : Outside ℕ
gateway = record {
  jobs = λ n. (some [], n);
  send = λ r n. (some "job", n + 1);
  open_url = λ u n. (true, n);
  start_program = λ a args n. (false, n);
  submit_workflow = λ path n. (none, n);
}

abbrev raw_audit : RawLauncher
raw_audit = record {
  unknown = [];
  role = some "reviewer";
  title = some "Audit";
  instructions = none;
  instance_name = none;
  workflow = none;
  requires_approval = false;
  max_retries = 0;
  escalate_to_role = none;
  app = none;
  args = [];
  url = none;
}

abbrev audit : Launcher
audit = record {
  name = "audit";
  role = some "reviewer";
  title = some "Audit";
  instructions = none;
  instance_name = none;
  workflow = none;
  requires_approval = false;
  max_retries = 0;
  escalate_to_role = none;
  app = none;
  args = [];
  url = none;
}

abbrev raw_triage : RawSchedule
raw_triage = record {
  unknown = [];
  launcher = some "audit";
  cron = none;
  every = some 1800;
  timezone = none;
  enabled = true;
  overlap = some "Skip";
  max_iterations = some 2;
  until = none;
  until_empty = none;
  requires_approval = none;
}

abbrev triage : Schedule
triage = record {
  name = "triage";
  launcher = "audit";
  cron = none;
  every = some 1800;
  timezone = none;
  enabled = true;
  overlap = skip;
  kind = loop;
  max_iterations = some 2;
  until = none;
  until_empty = none;
  requires_approval = none;
}

parse_config-IsValid_example :
    IsValid triage
    × (triage.name ≡ "triage")
    × (is_some (lookup "audit" (("audit", audit) ∷ [])) ≡ true)
unfolding parse_config lookup insert
parse_config-IsValid_example =
    parse_config-IsValid (("audit", raw_audit) ∷ []) [] (("triage", raw_triage) ∷ [])
      (("audit", audit) ∷ []) (("triage", triage) ∷ []) refl "triage" triage refl

abbrev turns : List (Turn ℕ)
turns =
    record { now = 1000; dry_run = false; before = λ n. n }
    ∷ record { now = 1900; dry_run = false; before = λ n. n }
    ∷ record { now = 2800; dry_run = false; before = λ n. n }
    ∷ record { now = 9000; dry_run = false; before = λ n. n + 1 }
    ∷ []

run_ticks-triage :
    fires "triage" (run_ticks utc gateway (("audit", audit) ∷ []) (triage ∷ []) turns [] 0) ≡ 2
unfolding run_ticks fires due_schedules lookup has_active_jobs launch insert any_active
run_ticks-triage = refl

run_ticks-Capped_example :
    0 + fires "triage" (run_ticks utc gateway (("audit", audit) ∷ []) (triage ∷ []) turns [] 0) ≤ 2
unfolding named lookup
run_ticks-Capped_example =
    run_ticks-Capped utc gateway (("audit", audit) ∷ []) (triage ∷ []) turns [] 0 "triage" 2
      (omega arith) ((λ same. refl), tt) (omega arith) (omega arith)

-- the time 5 and no other
abbrev iso : Iso
iso = record { format = λ t. "2026-11-25T00:00:05+00:00"; read = λ cs. some 5 }

abbrev states : Dict ScheduleState
states =
    (
      "triage",
      record {
        name = "triage";
        iterations = 2;
        last_run_at = some 5;
        last_job_ids = "job" ∷ [];
        exhausted_reason = some (all_iterations 2);
      },
    )
    ∷ (
      "audit",
      record {
        name = "audit";
        iterations = 0;
        last_run_at = none;
        last_job_ids = [];
        exhausted_reason = none;
      },
    )
    ∷ []

load_state-save_states_example : load_state iso (holds_states (save_states iso states)) ≡ states
load_state-save_states_example =
    load_state-save_states iso states (
      refl,
      record { some_text = refl; tight = refl; without_z = refl; back = refl },
      (refl, tt, tt),
    )
