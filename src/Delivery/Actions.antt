-- ===== src/Delivery/Actions.antt =====
-- When a sweep acts on a job (src/mco/orchestrator/delivery.py, `sweep`).
use bit_cadence.Prelude.{
  ℕ, ◌+◌, ◌*◌, ◌≤◌, ◌≡◌, true, false, none, some, List, arith, ◌==◌, ◌||◌, Bool-cases, Option-cases,
  inl, inr, subst, sym,
}
use bit_cadence.Delivery.{
  Event, Job, Settings, Fleet, Progress, delivery_state, Choice, to, give_up, choose, Step, idle,
  rekick, reroute, escalate, is_queued, taken, is_young, step_at, sweep_job,
}
use bit_cadence.Delivery.Allowed.{MayGo, Chosen, choose-Chosen}

-- The job has waited for so many stall windows, and was re-kicked or escalated since.
pub record Waited (settings : Settings) (now : ℕ) (p : Progress) (windows : ℕ) : Type 0 where
  pub clock : ℕ
  pub started : p.clock ≡ some clock
  pub old : clock + windows * (settings.stall * 1000000) ≤ now

module _ (fleet : Fleet) (settings : Settings) (now : ℕ) (job : Job) where
  -- A second step is due: two windows, a re-kick, no escalation, and no busy worker of the job's own.
  abbrev pub Second : Progress → Type 0
  Second p =
      Waited settings now p 2
      × (p.was_rekicked ≡ true)
      × (p.was_escalated ≡ false)
      × (is_queued fleet job ≡ false)

  abbrev pub Allowed : Progress → Step → Type 0
  Allowed p idle = Unit {0}
  Allowed p rekick = Waited settings now p 1 × (p.was_rekicked ≡ false)
  Allowed p (reroute r i) =
      Second p × (fleet.still_pending ≡ true) × MayGo fleet settings job p.reroutes r i
  Allowed p (escalate reason) = Second p

  taken-Allowed :
      (p : Progress) (c : Choice)
      → Second p
      → Chosen fleet settings job p.reroutes c
      → Allowed p (taken fleet c)
  taken-Allowed p (give_up reason) s c = s
  taken-Allowed p (to r i) s c = elim (Bool-cases fleet.still_pending) [
    | inl pending ↦
        let e : taken fleet (to r i) ≡ reroute r i = ground (arith, pending) in
        subst (Allowed p) (sym e) (s, pending, c)
    | inr left ↦
        let e : taken fleet (to r i) ≡ idle = ground (arith, left) in subst (Allowed p) (sym e) tt
  ]

  step_at-Allowed :
      (p : Progress) (clock : ℕ)
      → p.clock ≡ some clock
      → Allowed p (step_at fleet settings now job p clock)
  unfolding step_at
  step_at-Allowed p clock e = elim (Bool-cases (is_young fleet settings now clock 1)) [
    | inl young ↦
        subst (Allowed p)
          (sym (let e : step_at fleet settings now job p clock ≡ idle = ground (arith, young) in e))
          tt
    | inr old ↦ elim (Bool-cases p.was_rekicked) [
      | inr first ↦
          subst (Allowed p)
            (sym (
              let e : step_at fleet settings now job p clock ≡ rekick =
                ground (arith, old, first) in
              e))
            (record { clock = clock; started = e; old = ground arith }, first)
      | inl again ↦ elim (Bool-cases (is_young fleet settings now clock 2 || p.was_escalated)) [
        | inl settled ↦
            subst (Allowed p)
              (sym (
                let e : step_at fleet settings now job p clock ≡ idle =
                  ground (arith, old, again, settled) in
                e))
              tt
        | inr due ↦ elim (Bool-cases (is_queued fleet job)) [
          | inl queued ↦
              subst (Allowed p)
                (sym (
                  let e : step_at fleet settings now job p clock ≡ idle =
                    ground (arith, old, again, due, queued) in
                  e))
                tt
          | inr stuck ↦
              subst (Allowed p)
                (sym (
                  let e : step_at fleet settings now job p clock
                      ≡ taken fleet (choose fleet settings job p.reroutes) =
                    ground (arith, old, again, due, stuck) in
                  e))
                (taken-Allowed p (choose fleet settings job p.reroutes)
                  (
                    record { clock = clock; started = e; old = ground arith },
                    again,
                    ground arith,
                    stuck,
                  )
                  (choose-Chosen fleet settings job p.reroutes))
        ]
      ]
    ]
  ]

  sweep_job-off :
      (events : List Event)
      → (settings.stall == 0 || settings.kill_switch || job.archived) ≡ true
      → sweep_job fleet settings now job events ≡ idle
  unfolding sweep_job
  sweep_job-off events off = ground (arith, off)

  sweep_job-unknown :
      (events : List Event)
      → (settings.stall == 0 || settings.kill_switch || job.archived) ≡ false
      → (delivery_state job events).clock ≡ none
      → sweep_job fleet settings now job events ≡ idle
  unfolding sweep_job
  sweep_job-unknown events on unknown = ground (arith, on, unknown)

  pub sweep_job-on :
      (events : List Event) (clock : ℕ)
      → (settings.stall == 0 || settings.kill_switch || job.archived) ≡ false
      → (delivery_state job events).clock ≡ some clock
      → sweep_job fleet settings now job events
        ≡ step_at fleet settings now job (delivery_state job events) clock
  unfolding sweep_job
  sweep_job-on events clock on e = ground (arith, on, e)

  -- A sweep re-kicks a job only after a full stall window without a re-kick. It reroutes or escalates
  -- only after two windows, when the job was re-kicked and not escalated since and its worker is not
  -- busy; a reroute moves a job that is still pending, is not bound to its worker and has reroutes left,
  -- to a fallback role that is online. A job that is pinned goes, unless reroutes across hosts are
  -- allowed, to another instance on the host of the one that it is pinned to.
  pub sweep_job-Allowed :
      (events : List Event)
      → Allowed (delivery_state job events) (sweep_job fleet settings now job events)
  sweep_job-Allowed events =
      elim (Bool-cases (settings.stall == 0 || settings.kill_switch || job.archived)) [
        | inl off ↦ subst (Allowed (delivery_state job events)) (sym (sweep_job-off events off)) tt
        | inr on ↦ elim (Option-cases (delivery_state job events).clock) [
          | inl unknown ↦
              subst (Allowed (delivery_state job events))
                (sym (sweep_job-unknown events on unknown)) tt
          | inr (clock, e) ↦
              subst (Allowed (delivery_state job events)) (sym (sweep_job-on events clock on e))
                (step_at-Allowed (delivery_state job events) clock e)
        ]
      ]
