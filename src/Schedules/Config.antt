-- ===== src/Schedules/Config.antt =====
-- The document of launchers, schedules and loops (src/mco/scheduler.py, `parse_config`), where its values have
-- the types that it asks for and its triggers and timestamps have been read.
use bit_cadence.Prelude.{
  ℕ, ◌+◌, String, Bool, true, false, ◌&&◌, ◌||◌, not, Option, none, some, List, [], ◌∷◌, leb,
  if◌then◌else◌, is_some, lookup, insert, Dict, strip, codes_of, same_folded, ok, err, Raises,
  ◌>>=◌, ◌>>◌, require, ◌==◌,
}
use bit_cadence.Cron.Search.{CronExpr}
use bit_cadence.Schedules.Due.{Schedule, Overlap, skip, allow, Kind, schedule, loop}
use bit_cadence.Schedules.Launch.{Launcher, given}

pub data ConfigError : Type 0 where
  unknown_field several_targets no_target no_text args_without_app bad_url : ConfigError
  no_launcher two_triggers no_trigger bad_overlap bad_iterations until_empty_on_schedule :
      ConfigError
  until_empty_uncapped unbounded_loop bad_interval name_taken unknown_launcher : ConfigError

abbrev pub Parsed : Type 0 → Type 0
Parsed A = Raises ConfigError A

pub record RawLauncher : Type 0 where
  pub unknown : List String
  pub role : Option String
  pub title : Option String
  pub instructions : Option String
  pub instance_name : Option String
  pub workflow : Option String
  pub requires_approval : Bool
  pub max_retries : ℕ
  pub escalate_to_role : Option String
  pub app : Option String
  pub args : List String
  pub url : Option String

pub record RawSchedule : Type 0 where
  pub unknown : List String
  pub launcher : Option String
  pub cron : Option CronExpr
  pub every : Option ℕ
  pub timezone : Option String
  pub enabled : Bool
  pub overlap : Option String
  pub max_iterations : Option ℕ
  pub until : Option ℕ
  pub until_empty : Option String
  pub requires_approval : Option Bool

abbrev pub is_empty : List String → Bool
is_empty [] = true
is_empty (x ∷ xs) = false

-- `_opt_str`
abbrev pub opt_str : Option String → Option String
opt_str none = none
opt_str (some s) = given (some (strip s))

abbrev pub has : Option String → Bool
has o = is_some (given o)

abbrev pub one : Bool → ℕ
one b = if b then 1 else 0

-- the targets that a launcher sets
unfoldable pub targets : RawLauncher → ℕ
targets r = one (has r.role) + one (has r.workflow) + one (has r.app) + one (has r.url)

abbrev lower_letter : ℕ → ℕ
lower_letter c = if leb 65 c && leb c 90 then c + 32 else c

-- whether the text begins with the prefix, letters of either case being one
abbrev begins : List ℕ → List ℕ → Bool
begins [] ys = true
begins (x ∷ xs) [] = false
begins (x ∷ xs) (y ∷ ys) = (x == lower_letter y) && begins xs ys

unfoldable pub is_web : Option String → Bool
is_web none = true
is_web (some u) =
    begins (codes_of "http://") (codes_of u)
    || begins (codes_of "https://") (codes_of u)
    || begins (codes_of "file://") (codes_of u)

unfoldable pub parse_launcher : String → RawLauncher → Parsed Launcher
unfolding targets is_web
parse_launcher name r = do
  require (is_empty r.unknown) unknown_field
  require (leb (targets r) 1) several_targets
  require (leb 1 (targets r)) no_target
  require (not (has r.role) || has r.title || has r.instructions) no_text
  require (is_empty r.args || has r.app) args_without_app
  require (is_web (opt_str r.url)) bad_url
  ok (record {
    name = name;
    role = opt_str r.role;
    title = opt_str r.title;
    instructions = opt_str r.instructions;
    instance_name = opt_str r.instance_name;
    workflow = opt_str r.workflow;
    requires_approval = r.requires_approval;
    max_retries = r.max_retries;
    escalate_to_role = opt_str r.escalate_to_role;
    app = opt_str r.app;
    args = r.args;
    url = opt_str r.url;
  })

unfoldable pub parse_overlap : Option String → Parsed Overlap
parse_overlap none = ok skip
parse_overlap (some t) =
    if same_folded t "skip"
    then ok skip
    else if same_folded t "allow"
    then ok allow
    else err bad_overlap

abbrev pub is_loop : Kind → Bool
is_loop loop = true
is_loop schedule = false

abbrev pub at_least_one : Option ℕ → Bool
at_least_one none = true
at_least_one (some n) = leb 1 n

abbrev pub text_of : Option String → String
text_of none = ""
text_of (some s) = s

unfoldable pub parse_schedule : String → Kind → RawSchedule → Parsed Schedule
unfolding parse_overlap
parse_schedule name kind r = do
  require (is_empty r.unknown) unknown_field
  require (has r.launcher) no_launcher
  require (not (is_some r.cron && is_some r.every)) two_triggers
  require (is_some r.cron || is_some r.every) no_trigger
  overlap ← parse_overlap r.overlap
  require (at_least_one r.max_iterations) bad_iterations
  require (not (is_some (opt_str r.until_empty)) || is_loop kind) until_empty_on_schedule
  require (not (is_some (opt_str r.until_empty)) || is_some r.max_iterations) until_empty_uncapped
  require (not (is_loop kind) || is_some r.max_iterations || is_some r.until) unbounded_loop
  require (at_least_one r.every) bad_interval
  ok (record {
    name = name;
    launcher = text_of r.launcher;
    cron = r.cron;
    every = r.every;
    timezone = opt_str r.timezone;
    enabled = r.enabled;
    overlap = overlap;
    kind = kind;
    max_iterations = r.max_iterations;
    until = r.until;
    until_empty = opt_str r.until_empty;
    requires_approval = r.requires_approval;
  })

unfoldable pub parse_launchers : Dict RawLauncher → Dict Launcher → Parsed (Dict Launcher)
unfolding parse_launcher
parse_launchers [] found = ok found
parse_launchers ((k, r) ∷ rest) found = do
  l ← parse_launcher k r
  parse_launchers rest (insert k l found)

unfoldable pub parse_schedules : Dict RawSchedule → Dict Schedule → Parsed (Dict Schedule)
unfolding parse_schedule
parse_schedules [] found = ok found
parse_schedules ((k, r) ∷ rest) found = do
  s ← parse_schedule k schedule r
  parse_schedules rest (insert k s found)

unfoldable pub parse_loops : Dict RawSchedule → Dict Schedule → Parsed (Dict Schedule)
unfolding parse_schedule
parse_loops [] found = ok found
parse_loops ((k, r) ∷ rest) found = do
  require (not (is_some (lookup k found))) name_taken
  s ← parse_schedule k loop r
  parse_loops rest (insert k s found)

unfoldable pub check_launchers : Dict Launcher → Dict Schedule → Parsed (Unit {0})
check_launchers launchers [] = ok tt
check_launchers launchers ((k, s) ∷ rest) = do
  require (is_some (lookup s.launcher launchers)) unknown_launcher
  check_launchers launchers rest

unfoldable pub parse_config :
    Dict RawLauncher → Dict RawSchedule → Dict RawSchedule → Parsed (Dict Launcher × Dict Schedule)
unfolding parse_launchers parse_schedules parse_loops check_launchers
parse_config raw_launchers raw_schedules raw_loops = do
  launchers ← parse_launchers raw_launchers []
  schedules ← parse_schedules raw_schedules []
  all ← parse_loops raw_loops schedules
  check_launchers launchers all
  ok (launchers, all)
