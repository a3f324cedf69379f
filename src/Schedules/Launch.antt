-- ===== src/Schedules/Launch.antt =====
-- Turning a launcher into jobs (src/mco/launcher.py, `launch`). What lies outside (the gateway, the browser,
-- the programs of the host, and the file of a workflow with its submission) is a parameter.
use bit_cadence.Prelude.{
  ℕ, String, Bool, true, false, Option, none, some, List, [], ◌∷◌, if◌then◌else◌, str_eq, contains,
}
use bit_cadence.Schedules.Due.{Kind}

pub record Launcher : Type 0 where
  pub name : String
  pub role : Option String
  pub title : Option String
  pub instructions : Option String
  pub instance_name : Option String
  pub workflow : Option String
  pub requires_approval : Bool
  pub max_retries : ℕ
  pub escalate_to_role : Option String
  pub app : Option String
  pub args : List String
  pub url : Option String

-- what is stamped into a job that a schedule has made
pub record Origin : Type 0 where
  pub launcher : String
  pub trigger : Kind
  pub schedule : String
  pub iteration : ℕ

pub record JobRequest : Type 0 where
  pub to_role : Option String
  pub title : String
  pub instructions : String
  pub to_instance : Option String
  pub requires_approval : Bool
  pub max_retries : ℕ
  pub escalate_to_role : Option String
  pub origin : Origin

-- what the scheduler reads of a job on the board
pub record BoardJob : Type 0 where
  pub id : String
  pub status : String
  pub target_role : String

-- `none` is an exception, or an answer that names no job
pub record Outside (W : Type 0) : Type 0 where
  pub jobs : W → Option (List BoardJob) × W
  pub send : JobRequest → W → Option String × W
  pub open_url : String → W → Bool × W
  pub start_program : String → List String → W → Bool × W
  pub submit_workflow : String → W → Option (List String) × W

-- `a or b`
abbrev pub text_or : Option String → String → String
text_or none b = b
text_or (some a) b = if str_eq a "" then b else a

-- a text that is there and not empty
abbrev pub given : Option String → Option String
given none = none
given (some a) = if str_eq a "" then none else some a

abbrev approval : Bool → Option Bool → Bool
approval own none = own
approval own (some b) = b

module _ {W : Type 0} where
  abbrev no_jobs : Bool × W → Option (List String) × W
  no_jobs (true, w) = (some [], w)
  no_jobs (false, w) = (none, w)

  abbrev one_job : Option String × W → Option (List String) × W
  one_job (none, w) = (none, w)
  one_job (some i, w) = (if str_eq i "" then none else some (i ∷ []), w)

  unfoldable pub launch_job :
      Outside W → Launcher → Origin → Option Bool → W → Option (List String) × W
  launch_job o l origin override w = one_job (
      o.send
        (record {
          to_role = l.role;
          title = text_or l.title l.name;
          instructions = text_or l.instructions (text_or l.title l.name);
          to_instance = l.instance_name;
          requires_approval = approval l.requires_approval override;
          max_retries = l.max_retries;
          escalate_to_role = l.escalate_to_role;
          origin = origin;
        })
        w)

  unfoldable pub launch_on_board :
      Outside W → Launcher → Origin → Option Bool → W → Option (List String) × W
  unfolding launch_job
  launch_on_board o l origin override w = elim (given l.workflow) [
    | some path ↦ o.submit_workflow path w
    | none ↦ launch_job o l origin override w
  ]

  -- `launch`: the jobs that it made, or `none` where it raised
  unfoldable pub launch : Outside W → Launcher → Origin → Option Bool → W → Option (List String) × W
  unfolding launch_on_board
  launch o l origin override w = elim (given l.url) [
    | some u ↦ no_jobs (o.open_url u w)
    | none ↦ elim (given l.app) [
      | some a ↦ no_jobs (o.start_program a l.args w)
      | none ↦ launch_on_board o l origin override w
    ]
  ]

abbrev active_statuses : List String
active_statuses = "waiting" ∷ "needs_approval" ∷ "pending" ∷ "leased" ∷ "in_progress" ∷ []

abbrev is_in_flight : BoardJob → Bool
is_in_flight j = contains j.status active_statuses

unfoldable pub any_active : List String → List BoardJob → Bool
any_active ids [] = false
any_active ids (j ∷ js) =
    let rest = any_active ids js in
    if contains j.id ids then (if is_in_flight j then true else rest) else rest

unfoldable pub none_active : String → List BoardJob → Bool
none_active role [] = true
none_active role (j ∷ js) =
    let rest = none_active role js in
    if str_eq j.target_role role then (if is_in_flight j then false else rest) else rest

abbrev active_of : List String → Option (List BoardJob) → Bool
active_of ids none = false
active_of ids (some board) = any_active ids board

abbrev empty_of : String → Option (List BoardJob) → Option Bool
empty_of role none = none
empty_of role (some board) = some (none_active role board)

module _ {W : Type 0} where
  -- an unreachable gateway counts as nothing in flight
  unfoldable pub has_active_jobs : Outside W → List String → W → Bool × W
  has_active_jobs o [] w = (false, w)
  has_active_jobs o (i ∷ ids) w = let (board, w') = o.jobs w in (active_of (i ∷ ids) board, w')

  -- `none` where the gateway is unreachable
  unfoldable pub queue_is_empty : Outside W → String → W → Option Bool × W
  queue_is_empty o role w = let (board, w') = o.jobs w in (empty_of role board, w')
