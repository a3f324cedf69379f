-- ===== src/Delivery/Sweeps.antt =====
-- A job under many sweeps: how often it is rerouted, and that it is never forgotten
-- (src/mco/orchestrator/delivery.py).
use bit_cadence.Prelude.{
  ℕ, suc, ◌+◌, ◌≤◌, ◌≡◌, refl, Bool, true, false, Option, none, some, List, [], ◌∷◌, ◌++◌, arith,
  if◌then◌else◌,
}
use bit_cadence.Delivery.{
  Event, Job, Settings, Fleet, Progress, rekicked, rerouted, escalated, jev_decision, other, Name,
  follow, follow_all, created, delivery_state, Step, idle, rekick, reroute, escalate, sweep_job,
  apply, restart,
}
use bit_cadence.Delivery.Actions.{Allowed, sweep_job-Allowed}

-- A sweep with what it finds, its time and that of its event; or an event of others on the job.
pub data Turn : Type 0 where
  swept : Fleet → ℕ → ℕ → Turn
  happened : Option ℕ → Turn
  annotated : Option ℕ → Turn

unfoldable pub take_turn : Settings → Turn → Job × List Event → Job × List Event
take_turn settings (swept fleet now at) s = apply at (sweep_job fleet settings now s.0 s.1) s
take_turn settings (happened at) s = (s.0, s.1 ++ (record { name = other; at = at } ∷ []))
take_turn settings (annotated at) s = (s.0, s.1 ++ (record { name = jev_decision; at = at } ∷ []))

unfoldable pub run : Settings → List Turn → Job × List Event → Job × List Event
run settings [] s = s
run settings (t ∷ ts) s = run settings ts (take_turn settings t s)

abbrev pub is_rerouted : Event → Bool
is_rerouted e = elim e.name [ rerouted ↦ true | _ ↦ false ]

abbrev pub count_reroutes : List Event → ℕ
count_reroutes [] = 0
count_reroutes (e ∷ es) = if is_rerouted e then suc (count_reroutes es) else count_reroutes es

restart-reroutes : (at : Option ℕ) (p : Progress) → (restart at p).reroutes ≡ p.reroutes
restart-reroutes none p = refl
restart-reroutes (some t) p = ground arith

follow-reroutes :
    (p : Progress) (e : Event)
    → (follow p e).reroutes ≡ (if is_rerouted e then suc p.reroutes else p.reroutes)
unfolding follow
follow-reroutes p e =
    ground (
      arith,
      restart-reroutes e.at p,
      restart-reroutes e.at (record p { reroutes = p.reroutes + 1 }),
    )

-- The reroutes that the trail is read for are those that stand in it.
follow_all-reroutes :
    (p : Progress) (es : List Event) → (follow_all p es).reroutes ≡ p.reroutes + count_reroutes es
unfolding follow_all
follow_all-reroutes p [] = omega arith
follow_all-reroutes p (e ∷ es) =
    ground (arith, follow_all-reroutes (follow p e) es, follow-reroutes p e)

pub follow_all-append :
    (p : Progress) (es : List Event) (e : Event)
    → follow_all p (es ++ (e ∷ [])) ≡ follow (follow_all p es) e
unfolding follow_all
follow_all-append p [] e = refl
follow_all-append p (x ∷ es) e = follow_all-append (follow p x) es e

count_reroutes-append :
    (es : List Event) (e : Event)
    → count_reroutes (es ++ (e ∷ []))
      ≡ (if is_rerouted e then suc (count_reroutes es) else count_reroutes es)
count_reroutes-append [] e = refl
count_reroutes-append (x ∷ es) e = ground (arith, count_reroutes-append es e)

reroutes-count :
    (job : Job) (events : List Event) → (delivery_state job events).reroutes ≡ count_reroutes events
reroutes-count job events = omega (arith, follow_all-reroutes (created job) events)

abbrev pub event_of : Name → ℕ → Event
event_of name at = record { name = name; at = some at }

apply-Capped :
    (fleet : Fleet) (settings : Settings) (now at : ℕ) (job : Job) (events : List Event) (s : Step)
    → Allowed fleet settings now job (delivery_state job events) s
    → count_reroutes events ≤ settings.max_reroutes
    → count_reroutes (apply at s (job, events)).1 ≤ settings.max_reroutes
unfolding apply
apply-Capped fleet settings now at job events idle a h = h
apply-Capped fleet settings now at job events rekick a h =
    omega (arith, count_reroutes-append events (event_of rekicked at), h)
apply-Capped fleet settings now at job events (escalate reason) a h =
    omega (arith, count_reroutes-append events (event_of escalated at), h)
apply-Capped fleet settings now at job events (reroute r i) (second, pending, go) h = omega (
  arith,
  count_reroutes-append events (event_of rerouted at),
  go.within,
  reroutes-count job events,
)

run-Capped_from :
    (settings : Settings) (ts : List Turn) (job : Job) (events : List Event)
    → count_reroutes events ≤ settings.max_reroutes
    → count_reroutes (run settings ts (job, events)).1 ≤ settings.max_reroutes
unfolding run take_turn
run-Capped_from settings [] job events h = h
run-Capped_from settings (swept fleet now at ∷ ts) job events h =
    let next = apply at (sweep_job fleet settings now job events) (job, events) in
    run-Capped_from settings ts next.0 next.1 (
      apply-Capped fleet settings now at job events (sweep_job fleet settings now job events)
        (sweep_job-Allowed fleet settings now job events) h)
run-Capped_from settings (happened at ∷ ts) job events h =
    run-Capped_from settings ts job _
      (omega (arith, count_reroutes-append events (record { name = other; at = at }), h))
run-Capped_from settings (annotated at ∷ ts) job events h =
    run-Capped_from settings ts job _
      (omega (arith, count_reroutes-append events (record { name = jev_decision; at = at }), h))

-- However many sweeps run over a new job, whatever the fleet is at each, and whatever other events come
-- between them and restart its clock, its trail never has more reroutes than max_reroutes.
pub run-Capped :
    (settings : Settings) (ts : List Turn) (job : Job)
    → count_reroutes (run settings ts (job, [])).1 ≤ settings.max_reroutes
run-Capped settings ts job = run-Capped_from settings ts job [] (omega arith)
