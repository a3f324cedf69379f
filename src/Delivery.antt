-- ===== src/Delivery.antt =====
-- The delivery watchdog: what a sweep does for a pending job (src/mco/orchestrator/delivery.py).
-- Times are counted in microseconds.
use Prim.Native.Char.{code}
use Prim.Native.String.{◌++◌ as joined}
use bit_cadence.Prelude.{
  ℕ, zero, suc, ◌+◌, ◌*◌, ◌≤◌, ◌≡◌, String, Bool, true, false, Option, none, some, List, [], ◌∷◌,
  ◌++◌, if◌then◌else◌, any_by, str_eq, ◌==◌, leb, ltb, not, ◌&&◌, ◌||◌, truthy, get_or, Dict,
  lookup, contains, strip,
}
use text.Mathlib.Text.{starts_with}
pub mod Allowed
pub mod Actions
pub mod Sweeps
pub mod Stalls
pub mod Chains
pub mod Reports
mod Examples

-- The events of a job's audit trail, as far as the watchdog tells them apart.
pub data Name : Type 0 where
  rekicked : Name
  rerouted : Name
  escalated : Name
  jev_decision : Name
  other : Name

-- An event; its time is none where `_parse_ts` gives None.
pub record Event : Type 0 where
  pub name : Name
  pub at : Option ℕ

pub record Job : Type 0 where
  pub id : String
  pub archived : Bool
  pub created_at : Option ℕ
  pub target_role : String
  pub target_id : Option String
  pub org : String
  pub title : String
  pub no_reroute : Bool

-- The settings of a sweep; a stall of no seconds disables it.
pub record Settings : Type 0 where
  pub stall : ℕ
  pub kill_switch : Bool
  pub max_reroutes : ℕ
  pub fallbacks : Dict (List String)
  pub cross_host : Bool

-- What a sweep asks of other modules: the lower case of a text, the instances at work, the roles and the
-- instances that can take work, and if the job is still pending when it is rerouted.
pub record Fleet : Type 0 where
  pub lower : String → String
  pub busy : List String
  pub roles : String → List String
  pub instances : String → List (String × String)
  pub still_pending : Bool

pub record Progress : Type 0 where
  pub clock : Option ℕ
  pub was_rekicked : Bool
  pub was_escalated : Bool
  pub reroutes : ℕ

abbrev pub is_name : Name → Name → Bool
is_name rekicked rekicked = true
is_name rerouted rerouted = true
is_name escalated escalated = true
is_name jev_decision jev_decision = true
is_name other other = true
is_name _ _ = false

abbrev pub not_before : Option ℕ → ℕ → Bool
not_before none t = true
not_before (some c) t = leb c t

-- clock = ts; since = set()
abbrev pub restart : Option ℕ → Progress → Progress
restart none p = p
restart (some t) p =
    if not_before p.clock t
    then record p { clock = some t; was_rekicked = false; was_escalated = false }
    else p

pub follow : Progress → Event → Progress
follow p e = elim e.name [
  | jev_decision ↦ p
  | rekicked ↦ record p { was_rekicked = true }
  | escalated ↦ record p { was_escalated = true }
  | rerouted ↦ restart e.at (record p { reroutes = p.reroutes + 1 })
  | other ↦ restart e.at p
]

pub follow_all : Progress → List Event → Progress
follow_all p [] = p
follow_all p (e ∷ es) = follow_all (follow p e) es

abbrev pub created : Job → Progress
created job = record {
  clock = job.created_at;
  was_rekicked = false;
  was_escalated = false;
  reroutes = 0;
}

abbrev pub delivery_state : Job → List Event → Progress
delivery_state job events = follow_all (created job) events

-- instance[len(prefix):] if instance.startswith(prefix) else ""
pub after_prefix : String → String → String
after_prefix String.[] s = s
after_prefix (String.◌∷◌ c p) String.[] = ""
after_prefix (String.◌∷◌ c p) (String.◌∷◌ d s) = if code c == code d then after_prefix p s else ""

module _ (fleet : Fleet) where
  pub instance_host : String → String → String
  instance_host id role = after_prefix (joined (fleet.lower role) "-") (fleet.lower id)

abbrev pub ends_with : String → String → Bool
ends_with String.[] t = str_eq "" t
ends_with (String.◌∷◌ c s) t = str_eq (String.◌∷◌ c s) t || ends_with s t

pub is_gate : String → Bool
is_gate title = starts_with title "[shepherd]" && ends_with title "(gate)"

pub identity_bound : Job → Bool
identity_bound job = job.no_reroute || is_gate (strip job.title)

pub data Reason : Type 0 where
  identity : Reason
  reroute_limit : Reason
  no_fallback : Reason
  no_host : Reason
  none_on_host : Reason
  none_online : Reason

pub data Choice : Type 0 where
  to : String → Option String → Choice
  give_up : Reason → Choice

-- next((r for r in chain if r in online), None)
abbrev pub first_online : List String → List String → Option String
first_online online [] = none
first_online online (r ∷ rs) = if contains r online then some r else first_online online rs

module _ (fleet : Fleet) where
  -- The first instance of the role on the host, other than the one pinned.
  pub instance_for : String → String → String → List (String × String) → Option String
  instance_for pinned host role [] = none
  instance_for pinned host role ((r, i) ∷ rest) =
      if str_eq r role
        && not (str_eq (fleet.lower i) (fleet.lower pinned))
        && str_eq (instance_host fleet i r) host
      then some i
      else instance_for pinned host role rest

  pub first_on_host :
      String → String → List (String × String) → List String → Option (String × String)
  first_on_host pinned host online [] = none
  first_on_host pinned host online (r ∷ rs) = elim (instance_for pinned host r online) [
    | some i ↦ some (r, i)
    | none ↦ first_on_host pinned host online rs
  ]

  pub on_host : Job → String → List String → Choice
  on_host job pinned chain =
      let host = instance_host fleet pinned (fleet.lower job.target_role) in
      if str_eq host ""
      then give_up no_host
      else elim (first_on_host pinned host (fleet.instances job.org) chain) [
        | none ↦ give_up none_on_host
        | some (r, i) ↦ to r (some i)
      ]

  pub anywhere : Job → List String → Choice
  anywhere job chain = elim (first_online (fleet.roles job.org) chain) [
    | none ↦ give_up none_online
    | some r ↦ to r none
  ]

  pub choose : Settings → Job → ℕ → Choice
  choose settings job reroutes =
      if identity_bound job
      then give_up identity
      else if leb settings.max_reroutes reroutes
      then give_up reroute_limit
      else elim (lookup (fleet.lower job.target_role) settings.fallbacks) [
        | none ↦ give_up no_fallback
        | some chain ↦
            if truthy job.target_id && not settings.cross_host
            then on_host job (get_or "" job.target_id) chain
            else anywhere job chain
      ]

-- What a sweep does for one job.
pub data Step : Type 0 where
  idle : Step
  rekick : Step
  reroute : String → Option String → Step
  escalate : Reason → Step

module _ (fleet : Fleet) where
  -- str(pinned).lower() in busy
  pub is_queued : Job → Bool
  is_queued job =
      truthy job.target_id && contains (fleet.lower (get_or "" job.target_id)) fleet.busy

  abbrev pub taken : Choice → Step
  taken (to r i) = if fleet.still_pending then reroute r i else idle
  taken (give_up reason) = escalate reason

  -- age < windows * stall
  abbrev pub is_young : Settings → ℕ → ℕ → ℕ → Bool
  is_young settings now clock windows = ltb now (clock + windows * (settings.stall * 1000000))

  pub step_at : Settings → ℕ → Job → Progress → ℕ → Step
  step_at settings now job p clock =
      if is_young settings now clock 1
      then idle
      else if not p.was_rekicked
      then rekick
      else if is_young settings now clock 2 || p.was_escalated
      then idle
      else if is_queued job
      then idle
      else taken (choose fleet settings job p.reroutes)

  pub sweep_job : Settings → ℕ → Job → List Event → Step
  sweep_job settings now job events =
      if settings.stall == 0 || settings.kill_switch || job.archived
      then idle
      else elim ((delivery_state job events).clock) [
        | none ↦ idle
        | some clock ↦ step_at settings now job (delivery_state job events) clock
      ]

-- What the step leaves: the job, and its trail with the step's event at the time of its writing.
pub apply : ℕ → Step → Job × List Event → Job × List Event
apply at idle s = s
apply at rekick (job, events) = (job, events ++ (record { name = rekicked; at = some at } ∷ []))
apply at (reroute r i) (job, events) = (
  record job { target_role = r; target_id = i },
  events ++ (record { name = rerouted; at = some at } ∷ []),
)
apply at (escalate reason) (job, events) =
    (job, events ++ (record { name = escalated; at = some at } ∷ []))
