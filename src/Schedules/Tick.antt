-- ===== src/Schedules/Tick.antt =====
-- One pass of the scheduler (src/mco/launcher.py, `tick`), and passes in a row.
use bit_cadence.Prelude.{
  ℕ, ◌+◌, String, Bool, true, false, Option, none, some, List, [], ◌∷◌, ◌++◌, if◌then◌else◌, lookup,
  insert, Dict, ok, err,
}
use bit_cadence.Schedules.Due.{
  Schedule, ScheduleState, Reason, queue_empty, skip, allow, Host, Ticked, unknown_launcher,
  exhaustion_reason, due_schedules,
}
use bit_cadence.Schedules.Launch.{
  Launcher, Origin, Outside, given, launch, has_active_jobs, queue_is_empty,
}

pub data Action : Type 0 where
  fired skipped_overlap complete failed would_fire : Action

pub record Row : Type 0 where
  pub schedule : String
  pub action : Action
  pub job_ids : List String

pub record Pass (W : Type 0) : Type 0 where
  pub states : Dict ScheduleState
  pub report : List Row
  pub dirty : Bool
  pub world : W

abbrev pub new_state : String → ScheduleState
new_state n = record {
  name = n;
  iterations = 0;
  last_run_at = none;
  last_job_ids = [];
  exhausted_reason = none;
}

-- states.setdefault
abbrev pub state_or_new : String → Option ScheduleState → ScheduleState
state_or_new n none = new_state n
state_or_new n (some st) = st

-- the reason stays as it is where none is found
abbrev or_else : Option Reason → Option Reason → Option Reason
or_else none old = old
or_else (some r) old = some r

-- the record of a schedule that has just fired
unfoldable pub fired_state : Schedule → List String → ℕ → ScheduleState → ScheduleState
unfolding exhaustion_reason
fired_state s ids now st =
    let next : ScheduleState = record st {
      iterations = st.iterations + 1;
      last_run_at = some now;
      last_job_ids = ids;
    } in
    record next {
      exhausted_reason = or_else (exhaustion_reason s (some next) now) next.exhausted_reason;
    }

abbrev pub origin_of : Schedule → Launcher → ScheduleState → Origin
origin_of s l st = record {
  launcher = l.name;
  trigger = s.kind;
  schedule = s.name;
  iteration = st.iterations + 1;
}

abbrev pub is_clear : Option Bool → Bool
is_clear none = false
is_clear (some b) = b

-- what a pass leaves: its report, the states that are kept, and the world
pub record Ticks (W : Type 0) : Type 0 where
  pub answer : Ticked (List Row)
  pub kept : Dict ScheduleState
  pub world : W

module _ {W : Type 0} where
  abbrev pub row : Schedule → Action → List String → Pass W → Pass W
  row s a ids p = record p {
    report = p.report ++ record { schedule = s.name; action = a; job_ids = ids } ∷ [];
  }

  -- a schedule whose launch has come back
  unfoldable pub settle_launch :
      Schedule → ℕ → ScheduleState → Option (List String) → Pass W → Pass W
  unfolding fired_state
  settle_launch s now st none p = row s failed [] p
  settle_launch s now st (some ids) p =
      row s fired ids
        (record p { states = insert s.name (fired_state s ids now st) p.states; dirty = true })

  -- past the tests on the queue and on overlap
  unfoldable pub fire : Outside W → Bool → ℕ → Schedule → Launcher → ScheduleState → Pass W → Pass W
  unfolding settle_launch
  fire o dry_run now s l st p =
      if dry_run
      then row s would_fire [] p
      else (let (ids, w) = launch o l (origin_of s l st) s.requires_approval p.world in
          settle_launch s now st ids (record p { world = w }))

  unfoldable pub overlaps : Outside W → Schedule → ScheduleState → W → Bool × W
  overlaps o s st w = elim s.overlap [
    | skip ↦ has_active_jobs o st.last_job_ids w
    | allow ↦ (false, w)
  ]

  -- past the test on the queue
  unfoldable pub unless_active :
      Outside W → Bool → ℕ → Schedule → Launcher → ScheduleState → Pass W → Pass W
  unfolding fire overlaps
  unless_active o dry_run now s l st p =
      let (busy, w) = overlaps o s st p.world in
      if busy
      then row s skipped_overlap [] (record p { world = w })
      else fire o dry_run now s l st (record p { world = w })

  -- the loop has cleared the queue that it is to clear
  unfoldable pub finish_loop : String → Schedule → ScheduleState → Pass W → Pass W
  finish_loop role s st p = row s complete [] (record p {
    states = insert s.name (record st { exhausted_reason = some (queue_empty role) }) p.states;
    dirty = true;
  })

  unfoldable pub with_launcher :
      Outside W → Bool → ℕ → Schedule → Launcher → ScheduleState → Pass W → Pass W
  unfolding unless_active finish_loop
  with_launcher o dry_run now s l st p = elim (given s.until_empty) [
    | none ↦ unless_active o dry_run now s l st p
    | some role ↦
        let (clear, w) = queue_is_empty o role p.world in
        if is_clear clear
        then finish_loop role s st (record p { world = w })
        else unless_active o dry_run now s l st (record p { world = w })
  ]

  -- One round of the pass: the record of a schedule without one is made before its launcher is looked up.
  unfoldable pub visit :
      Outside W → Dict Launcher → Bool → ℕ → Schedule → Pass W → Ticked (Unit {0}) × Pass W
  unfolding with_launcher
  visit o launchers dry_run now s p =
      let st = state_or_new s.name (lookup s.name p.states) in
      let q : Pass W = record p { states = insert s.name st p.states } in
      elim (lookup s.launcher launchers) [
        | none ↦ (err unknown_launcher, q)
        | some l ↦ (ok tt, with_launcher o dry_run now s l st q)
      ]

  unfoldable pub visit_all :
      Outside W → Dict Launcher → Bool → ℕ → List Schedule → Pass W → Ticked (Unit {0}) × Pass W
  unfolding visit
  visit_all o launchers dry_run now [] p = (ok tt, p)
  visit_all o launchers dry_run now (s ∷ ss) p =
      let (answer, q) = visit o launchers dry_run now s p in
      elim answer [ err e ↦ (err e, q) | ok _ ↦ visit_all o launchers dry_run now ss q ]

  unfoldable pub save_pass : Dict ScheduleState → Ticked (Unit {0}) → Pass W → Ticks W
  save_pass old (err e) p = record { answer = err e; kept = old; world = p.world }
  save_pass old (ok _) p = record {
    answer = ok p.report;
    kept = if p.dirty then p.states else old;
    world = p.world;
  }

  unfoldable pub pass_over :
      Outside W
      → Dict Launcher
      → Bool
      → ℕ
      → Dict ScheduleState
      → Ticked (List Schedule)
      → W
      → Ticks W
  unfolding visit_all save_pass
  pass_over o launchers dry_run now states (err e) w = record {
    answer = err e;
    kept = states;
    world = w;
  }
  pass_over o launchers dry_run now states (ok due) w =
      let (answer, p) =
        visit_all o launchers dry_run now due
          (record { states = states; report = []; dirty = false; world = w }) in
      save_pass states answer p

  -- `tick`, on a configuration and the states that were kept before
  unfoldable pub tick :
      Host → Outside W → Dict Launcher → List Schedule → Bool → ℕ → Dict ScheduleState → W → Ticks W
  unfolding pass_over
  tick h o launchers schedules dry_run now states w =
      pass_over o launchers dry_run now states (due_schedules h schedules states now) w
