-- ===== src/Schedules/Bounds.antt =====
-- A loop ends: no pass fires a schedule more often than its cap allows (src/mco/scheduler.py, `is_due`;
-- src/mco/launcher.py, `tick`).
use bit_cadence.Prelude.{
  ℕ, ◌+◌, ◌≤◌, ◌<◌, ◌≡◌, refl, sym, ap, ◌∙◌, String, Bool, true, false, Option, none, some, List,
  [], ◌∷◌, ◌++◌, arith, if◌then◌else◌, leb, lookup, str_eq, eq_iff, Dict, Bool-cases, Option-cases,
  Result-cases, inl, inr, ◌⊎◌, ok, err, All, bind-ok, ok-injective,
}
use bit_cadence.Schedules.Due.{
  Schedule, ScheduleState, Host, Ticked, iterations_of, recorded, past, reached, bound_reason,
  exhaustion_reason, next_run_at, is_due, arrived, place, due_schedules,
}
use bit_cadence.Schedules.Launch.{Launcher, Outside}
use bit_cadence.Schedules.Tick.{Row, Pass, visit_all, save_pass, pass_over, tick}
use bit_cadence.Schedules.Fires.{fires, named, Grows, visit_all-Grows}
use bit_cadence.Schedules.Counts.{one_if}

-- What a schedule that is due shows.
pub record IsLive (s : Schedule) (o : Option ScheduleState) (now : ℕ) : Type 0 where
  pub on : s.enabled ≡ true
  pub open_yet : recorded o ≡ none
  pub unbound : bound_reason s o now ≡ none

-- A schedule is due only where it is enabled, its record has no reason to be finished, and neither its end nor
-- its last iteration has been reached.
pub is_due-IsLive :
    (h : Host) (s : Schedule) (o : Option ScheduleState) (now : ℕ)
    → is_due h s o now ≡ ok true
    → IsLive s o now
unfolding is_due next_run_at exhaustion_reason
is_due-IsLive h s o now d =
    let (due, p, q) = bind-ok (next_run_at h s o now) (λ x. ok (arrived x now)) true d in
    let there : arrived due now ≡ true = ok-injective (arrived due now) true q in
    elim (Bool-cases s.enabled) [
      | inr off ↦
          let x : none ≡ due = ok-injective none due (rw (off, next_run_at) at p) in
          absurd (ground (arith, ap (λ y. arrived y now) x))
      | inl on ↦ elim (Option-cases (recorded o)) [
        | inr (r, e) ↦
            let x : none ≡ due =
              ok-injective none due (rw (on, e, next_run_at, exhaustion_reason) at p) in
            absurd (ground (arith, ap (λ y. arrived y now) x))
        | inl e ↦ elim (Option-cases (bound_reason s o now)) [
          | inr (r, b) ↦
              let x : none ≡ due =
                ok-injective none due (rw (on, e, b, next_run_at, exhaustion_reason) at p) in
              absurd (ground (arith, ap (λ y. arrived y now) x))
          | inl b ↦ record { on = on; open_yet = e; unbound = b }
        ]
      ]
    ]

bound_reason-below :
    (s : Schedule) (o : Option ScheduleState) (now m : ℕ)
    → bound_reason s o now ≡ none
    → s.max_iterations ≡ some m
    → 1 ≤ m
    → iterations_of o < m
unfolding bound_reason
bound_reason-below s none now m b q one = omega (arith, one)
bound_reason-below s (some st) now m b q one = elim (Bool-cases (past now s.until)) [
  | inl over ↦ absurd (ground (arith, rw (over, bound_reason) at b))
  | inr before ↦ elim (Bool-cases (reached st.iterations (some m))) [
    | inl all ↦ absurd (ground (arith, rw (before, q, all, bound_reason) at b))
    | inr more ↦ ground arith
  ]
]

named-place :
    (k : String) (s : Schedule) (ts : List Schedule)
    → named k (place s ts) ≡ one_if (str_eq s.name k) + named k ts
unfolding named place
named-place k s [] = refl
named-place k s (t ∷ ts) = ground (arith, named-place k s ts)

-- the schedules of that name have the cap
abbrev pub Capped : String → ℕ → List Schedule → Type 0
Capped k m = All (λ s. str_eq s.name k ≡ true → s.max_iterations ≡ some m)

chosen :
    (b : Bool) (s : Schedule) (rest due : List Schedule)
    → (if b then place s rest else rest) ≡ due
    → (b ≡ true) × (place s rest ≡ due) ⊎ (b ≡ false) × (rest ≡ due)
chosen true s rest due h = inl (refl, h)
chosen false s rest due h = inr (refl, h)

abbrev pub reported : Ticked (List Row) → List Row
reported (ok rows) = rows
reported (err e) = []

save_pass-Capped :
    {W : Type 0} (k : String) (m : ℕ) (states : Dict ScheduleState) (answer : Ticked (Unit {0}))
    (p q : Pass W) (n : ℕ)
    → p.states ≡ states
    → p.report ≡ []
    → p.dirty ≡ false
    → Grows k n p q
    → iterations_of (lookup k states) + n ≤ m
    → let t = save_pass states answer q in
      (iterations_of (lookup k t.kept) ≤ m)
      × (iterations_of (lookup k states) + fires k (reported t.answer)
          ≡ iterations_of (lookup k t.kept))
unfolding save_pass fires
save_pass-Capped k m states (err e) p q n a b c g bound = (omega (arith, bound), omega arith)
save_pass-Capped k m states (ok _) p q n a b c g bound =
    let none_before : fires k p.report ≡ 0 = ap (fires k) b in
    let before : iterations_of (lookup k p.states) ≡ iterations_of (lookup k states) =
      ap (λ d. iterations_of (lookup k d)) a in
    elim (Bool-cases q.dirty) [
      | inl changed ↦ rw changed (
        omega (arith, g.even, g.most, none_before, before, bound),
        omega (arith, g.even, none_before, before),
      )
      | inr clean ↦
          let (_, quiet) = g.saved clean in
          rw clean (omega (arith, bound), omega (arith, quiet, none_before))
    ]

-- Of the schedules that are due no more have the name than of all, and none if the cap is reached.
due_schedules-named :
    (h : Host) (k : String) (m : ℕ) (ss due : List Schedule) (states : Dict ScheduleState) (now : ℕ)
    → 1 ≤ m
    → Capped k m ss
    → due_schedules h ss states now ≡ ok due
    → (named k due ≤ named k ss) × (m ≤ iterations_of (lookup k states) → named k due ≡ 0)
unfolding due_schedules named
due_schedules-named h k m [] due states now one c e =
    rw (sym (ok-injective [] due e)) (omega arith, λ x. refl)
due_schedules-named h k m (s ∷ ss) due states now one (c, cs) e =
    let (b, p, e1) = bind-ok (is_due h s (lookup s.name states) now) _ due e in
    let (rest, q, e2) = bind-ok (due_schedules h ss states now) _ due e1 in
    let (fewer, stopped) = due_schedules-named h k m ss rest states now one cs q in
    let same : (if b then place s rest else rest) ≡ due = ok-injective _ due e2 in
    elim (chosen b s rest due same) [
      | inr (quiet, r) ↦ rw (sym r) (omega (arith, fewer), stopped)
      | inl (live, r) ↦
          let count = named-place k s rest in
          let alive = is_due-IsLive h s (lookup s.name states) now (p ∙ ap ok live) in
          let other : m ≤ iterations_of (lookup k states) → str_eq s.name k ≡ false = λ x.
            elim (Bool-cases (str_eq s.name k)) [
              | inr o ↦ o
              | inl i ↦
                  let n : s.name ≡ k = ground (arith, eq_iff s.name k) in
                  let below =
                    bound_reason-below s (lookup s.name states) now m alive.unbound (c i) one in
                  let same_count : iterations_of (lookup s.name states)
                      ≡ iterations_of (lookup k states) =
                    ap (λ y. iterations_of (lookup y states)) n in
                  absurd (omega (arith, below, same_count, x))
            ] in
          rw (sym r) (
            omega (arith, count, fewer),
            λ x.
                let z : one_if (str_eq s.name k) ≡ 0 = ap one_if (other x) in
                omega (arith, count, z, stopped x),
          )
    ]

-- A pass, of a schedule with a cap whose name is its own: what it has run and what the report says that it
-- fired stays within the cap, and that is what is kept.
pub tick-Capped :
    {W : Type 0} (h : Host) (o : Outside W) (launchers : Dict Launcher) (ss : List Schedule)
    (dry_run : Bool) (now : ℕ) (states : Dict ScheduleState) (w : W) (k : String) (m : ℕ)
    → 1 ≤ m
    → Capped k m ss
    → named k ss ≤ 1
    → iterations_of (lookup k states) ≤ m
    → let t = tick h o launchers ss dry_run now states w in
      (iterations_of (lookup k t.kept) ≤ m)
      × (iterations_of (lookup k states) + fires k (reported t.answer)
          ≡ iterations_of (lookup k t.kept))
unfolding tick pass_over save_pass fires
tick-Capped {W = W} h o launchers ss dry_run now states w k m one c once within =
    elim (Result-cases (due_schedules h ss states now)) [
      | inr (e, bad) ↦ rw (bad, tick, pass_over) (within, omega arith)
      | inl (due, fine) ↦
          let start : Pass W = record { states = states; report = []; dirty = false; world = w } in
          let (fewer, stopped) = due_schedules-named h k m ss due states now one c fine in
          let g = visit_all-Grows k o launchers dry_run now due start in
          let bound : iterations_of (lookup k states) + named k due ≤ m =
            elim (Bool-cases (leb m (iterations_of (lookup k states)))) [
              | inl all ↦ omega (arith, stopped (ground arith), within)
              | inr some_left ↦
                  let more : iterations_of (lookup k states) < m = ground arith in
                  omega (arith, more, fewer, once)
            ] in
          rw (fine, tick, pass_over)
            (save_pass-Capped k m states (visit_all o launchers dry_run now due start).0 start
              (visit_all o launchers dry_run now due start).1 (named k due) refl refl refl g bound)
    ]

-- a pass, its time, and what others do to the world before it
pub record Turn (W : Type 0) : Type 0 where
  pub now : ℕ
  pub dry_run : Bool
  pub before : W → W

-- What the reports of passes in a row say, in order; each pass begins with the states that the last has kept.
unfoldable pub run_ticks :
    {W : Type 0}
    → Host
    → Outside W
    → Dict Launcher
    → List Schedule
    → List (Turn W)
    → Dict ScheduleState
    → W
    → List Row
unfolding tick
run_ticks h o launchers ss [] states w = []
run_ticks h o launchers ss (t ∷ ts) states w =
    let done = tick h o launchers ss t.dry_run t.now states (t.before w) in
    reported done.answer ++ run_ticks h o launchers ss ts done.kept done.world

fires-concat : (k : String) (rs qs : List Row) → fires k (rs ++ qs) ≡ fires k rs + fires k qs
unfolding fires
fires-concat k [] qs = omega arith
fires-concat k (r ∷ rs) qs = omega (arith, fires-concat k rs qs)

-- A loop with a cap is bounded: however many passes are made, at whatever times, and whatever the gateway answers
-- between them, the reports have it fired no more often than the cap, less what it had run before.
pub run_ticks-Capped :
    {W : Type 0} (h : Host) (o : Outside W) (launchers : Dict Launcher) (ss : List Schedule)
    (ts : List (Turn W)) (states : Dict ScheduleState) (w : W) (k : String) (m : ℕ)
    → 1 ≤ m
    → Capped k m ss
    → named k ss ≤ 1
    → iterations_of (lookup k states) ≤ m
    → iterations_of (lookup k states) + fires k (run_ticks h o launchers ss ts states w) ≤ m
unfolding run_ticks fires
run_ticks-Capped h o launchers ss [] states w k m one c once within = omega (arith, within)
run_ticks-Capped h o launchers ss (t ∷ ts) states w k m one c once within =
    let done = tick h o launchers ss t.dry_run t.now states (t.before w) in
    let (still, even) =
      tick-Capped h o launchers ss t.dry_run t.now states (t.before w) k m one c once within in
    let rest = run_ticks-Capped h o launchers ss ts done.kept done.world k m one c once still in
    omega (
      arith,
      even,
      rest,
      fires-concat k (reported done.answer) (run_ticks h o launchers ss ts done.kept done.world),
    )
