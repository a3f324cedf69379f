-- ===== src/Delivery/Stalls.antt =====
-- A stalled job is acted on, and the operator is told once
-- (src/mco/orchestrator/delivery.py, `sweep`).
use bit_cadence.Prelude.{
  ℕ, ◌+◌, ◌*◌, ◌≤◌, ◌<◌, ◌≡◌, refl, String, true, false, Option, some, List, [], ◌∷◌, ◌++◌, arith,
  ◌==◌, ◌||◌, inl, inr, ◌⊎◌, subst, sym, ◌∙◌, ap,
}
use bit_cadence.Delivery.{
  Event, Job, Settings, Fleet, Progress, rekicked, escalated, follow, created, delivery_state,
  Reason, Choice, to, give_up, choose, Step, idle, rekick, reroute, escalate, is_queued, taken,
  step_at, sweep_job, apply,
}
use bit_cadence.Delivery.Actions.{Allowed, sweep_job-Allowed, sweep_job-on}
use bit_cadence.Delivery.Sweeps.{Turn, swept, take_turn, run, event_of, follow_all-append}

-- The watchdog is on for the job.
abbrev pub IsWatched : Settings → Job → Type 0
IsWatched settings job =
    (0 < settings.stall) × (settings.kill_switch ≡ false) × (job.archived ≡ false)

watched :
    (settings : Settings) (job : Job)
    → IsWatched settings job
    → (settings.stall == 0 || settings.kill_switch || job.archived) ≡ false
watched settings job w = ground arith

-- A step that asks for a second one, where the worker is not busy and the job still pending.
abbrev pub Acted : Step → Type 0
Acted s =
    ((r : String) × (i : Option String) × (s ≡ reroute r i))
    ⊎ ((reason : Reason) × (s ≡ escalate reason))

taken-Acted : (fleet : Fleet) (c : Choice) → fleet.still_pending ≡ true → Acted (taken fleet c)
taken-Acted fleet (give_up reason) h = inr (reason, refl)
taken-Acted fleet (to r i) h = inl (r, i, ground (arith, h))

second_step :
    (fleet : Fleet) (settings : Settings) (now : ℕ) (job : Job) (p : Progress) (clock : ℕ)
    → clock + 2 * (settings.stall * 1000000) ≤ now
    → p.was_rekicked ≡ true
    → p.was_escalated ≡ false
    → is_queued fleet job ≡ false
    → step_at fleet settings now job p clock ≡ taken fleet (choose fleet settings job p.reroutes)
unfolding step_at
second_step fleet settings now job p clock old again calm free =
    ground (arith, old, again, calm, free)

module _ (settings : Settings) (job : Job) (events : List Event) (clock : ℕ)
    (w : IsWatched settings job) (started : (delivery_state job events).clock ≡ some clock)
    (fresh : (delivery_state job events).was_rekicked ≡ false)
    (quiet : (delivery_state job events).was_escalated ≡ false) where
  first_sweep :
      (fleet : Fleet) (now : ℕ)
      → clock + settings.stall * 1000000 ≤ now
      → sweep_job fleet settings now job events ≡ rekick
  unfolding step_at
  first_sweep fleet now old =
      sweep_job-on fleet settings now job events clock (watched settings job w) started
      ∙ ground (arith, fresh, old)

  abbrev rekicked_events : ℕ → List Event
  rekicked_events at = events ++ (event_of rekicked at ∷ [])

  after_rekick :
      (at : ℕ)
      → delivery_state job (rekicked_events at)
        ≡ record (delivery_state job events) { was_rekicked = true }
  unfolding follow
  after_rekick at = follow_all-append (created job) events (event_of rekicked at)

  second_sweep :
      (fleet : Fleet) (now at : ℕ)
      → clock + 2 * (settings.stall * 1000000) ≤ now
      → is_queued fleet job ≡ false
      → fleet.still_pending ≡ true
      → Acted (sweep_job fleet settings now job (rekicked_events at))
  second_sweep fleet now at old free pending =
      let p = delivery_state job (rekicked_events at) in
      let e : p ≡ record (delivery_state job events) { was_rekicked = true } = after_rekick at in
      let begun : p.clock ≡ some clock = ap (λ q. q.clock) e ∙ started in
      let done : p.was_rekicked ≡ true = ap (λ q. q.was_rekicked) e in
      let calm : p.was_escalated ≡ false = ap (λ q. q.was_escalated) e ∙ quiet in
      subst Acted
        (sym (
          sweep_job-on fleet settings now job (rekicked_events at) clock (watched settings job w)
            begun
          ∙ second_step fleet settings now job p clock old done calm free))
        (taken-Acted fleet (choose fleet settings job p.reroutes) pending)

  -- A job that is watched and pending, and not re-kicked or escalated since its clock started, is
  -- re-kicked by the first sweep after a stall window; and the first sweep after two windows reroutes or
  -- escalates it, where its worker is not busy and the job still pending at the reroute.
  pub stalled-Acted :
      (fleet later : Fleet) (now at next : ℕ)
      → clock + settings.stall * 1000000 ≤ now
      → clock + 2 * (settings.stall * 1000000) ≤ next
      → is_queued later job ≡ false
      → later.still_pending ≡ true
      → let s = take_turn settings (swept fleet now at) (job, events) in
        (sweep_job fleet settings now job events ≡ rekick)
        × Acted (sweep_job later settings next s.0 s.1)
  unfolding take_turn apply
  stalled-Acted fleet later now at next old older free pending =
      let e = first_sweep fleet now old in
      (
        e,
        subst
            (λ x. Acted (
              sweep_job later settings next (apply at x (job, events)).0
                (apply at x (job, events)).1))
            (sym e) (second_sweep later next at older free pending),
      )

-- Where a job was re-kicked and escalated, a sweep does nothing.
settled-idle :
    (fleet : Fleet) (settings : Settings) (now : ℕ) (job : Job) (p : Progress) (s : Step)
    → Allowed fleet settings now job p s
    → p.was_rekicked ≡ true
    → p.was_escalated ≡ true
    → s ≡ idle
settled-idle fleet settings now job p idle a r e = refl
settled-idle fleet settings now job p rekick (w, first) r e = absurd (ground (arith, first, r))
settled-idle fleet settings now job p (escalate reason) (w, again, calm, free) r e =
    absurd (ground (arith, calm, e))
settled-idle fleet settings now job p (reroute q i) ((w, again, calm, free), pending, go) r e =
    absurd (ground (arith, calm, e))

pub sweeps_of : List (Fleet × ℕ × ℕ) → List Turn
sweeps_of [] = []
sweeps_of ((fleet, now, at) ∷ rest) = swept fleet now at ∷ sweeps_of rest

settled-run :
    (settings : Settings) (ts : List (Fleet × ℕ × ℕ)) (job : Job) (events : List Event)
    → (delivery_state job events).was_rekicked ≡ true
    → (delivery_state job events).was_escalated ≡ true
    → run settings (sweeps_of ts) (job, events) ≡ (job, events)
unfolding run take_turn sweeps_of apply
settled-run settings [] job events r e = refl
settled-run settings ((fleet, now, at) ∷ ts) job events r e =
    let still : sweep_job fleet settings now job events ≡ idle =
      settled-idle fleet settings now job (delivery_state job events) _
        (sweep_job-Allowed fleet settings now job events) r e in
    ap (λ x. run settings (sweeps_of ts) (apply at x (job, events))) still
    ∙ settled-run settings ts job events r e

escalated_once :
    (fleet : Fleet) (settings : Settings) (now : ℕ) (job : Job) (p : Progress) (reason : Reason)
    → Allowed fleet settings now job p (escalate reason)
    → p.was_rekicked ≡ true
escalated_once fleet settings now job p reason (w, again, calm, free) = again

after_escalation :
    (job : Job) (events : List Event) (at : ℕ)
    → delivery_state job (events ++ (event_of escalated at ∷ []))
      ≡ record (delivery_state job events) { was_escalated = true }
unfolding follow
after_escalation job events at = follow_all-append (created job) events (event_of escalated at)

-- Once a sweep has escalated a job, no later sweep changes the job or its trail, whenever they run and
-- whatever the fleet is, as long as no other event comes in between: the operator is told once.
pub escalated-quiet :
    (fleet : Fleet) (settings : Settings) (now at : ℕ) (job : Job) (events : List Event)
    (reason : Reason) (ts : List (Fleet × ℕ × ℕ))
    → sweep_job fleet settings now job events ≡ escalate reason
    → let s = take_turn settings (swept fleet now at) (job, events) in
      run settings (sweeps_of ts) s ≡ s
unfolding take_turn apply
escalated-quiet fleet settings now at job events reason ts h =
    let after = events ++ (event_of escalated at ∷ []) in
    let again : (delivery_state job events).was_rekicked ≡ true =
      escalated_once fleet settings now job (delivery_state job events) reason (
        subst (Allowed fleet settings now job (delivery_state job events)) h
          (sweep_job-Allowed fleet settings now job events)) in
    let e : delivery_state job after ≡ record (delivery_state job events) { was_escalated = true } =
      after_escalation job events at in
    subst (λ x. run settings (sweeps_of ts) (apply at x (job, events)) ≡ apply at x (job, events))
      (sym h)
      (settled-run settings ts job after (ap (λ q. q.was_rekicked) e ∙ again)
        (ap (λ q. q.was_escalated) e))
