-- ===== src/Schedules/Fires.antt =====
-- How often a pass fires a schedule (src/mco/launcher.py, `tick`).
use bit_cadence.Prelude.{
  ℕ, ◌+◌, ◌≤◌, ◌≡◌, refl, ap, ◌∙◌, String, Bool, true, false, Option, none, some, List, [], ◌∷◌,
  ◌++◌, arith, if◌then◌else◌, lookup, insert, lookup-insert, str_eq, eq_refl, Dict, Bool-cases,
  Option-cases, Result-cases, inl, inr,
}
use bit_cadence.Schedules.Due.{Schedule, ScheduleState, iterations_of, queue_empty}
use bit_cadence.Schedules.Launch.{Launcher, Outside, given, launch, queue_is_empty}
use bit_cadence.Schedules.Tick.{
  Action, fired, Row, Pass, origin_of, state_or_new, fired_state, settle_launch, fire, overlaps,
  unless_active, finish_loop, is_clear, with_launcher, visit, visit_all,
}
use bit_cadence.Schedules.Counts.{
  one_if, iterations-kept, iterations-fired, fired_state-iterations, iterations-default,
}

abbrev is_fire : Action → Bool
is_fire fired = true
is_fire _ = false

abbrev fire_of : String → Row → ℕ
fire_of k r = if str_eq r.schedule k then (if is_fire r.action then 1 else 0) else 0

-- the times that a report has the schedule fired
unfoldable pub fires : String → List Row → ℕ
fires k [] = 0
fires k (r ∷ rs) = fire_of k r + fires k rs

fires-append :
    (k : String) (rs : List Row) (r : Row) → fires k (rs ++ r ∷ []) ≡ fires k rs + fire_of k r
unfolding fires
fires-append k [] r = omega arith
fires-append k (x ∷ rs) r = omega (arith, fires-append k rs r)

-- the schedules of that name
unfoldable pub named : String → List Schedule → ℕ
named k [] = 0
named k (s ∷ ss) = one_if (str_eq s.name k) + named k ss

module _ {W : Type 0} where
  -- The iterations of a schedule grow as its fires do: by one at most, where it is the one that is visited.
  -- Where something has fired, the states are to be saved.
  pub record Grows (k : String) (n : ℕ) (p q : Pass W) : Type 0 where
    pub even :
        iterations_of (lookup k q.states) + fires k p.report
        ≡ iterations_of (lookup k p.states) + fires k q.report
    pub least : fires k p.report ≤ fires k q.report
    pub most : fires k q.report ≤ fires k p.report + n
    pub saved : q.dirty ≡ false → (p.dirty ≡ false) × (fires k q.report ≤ fires k p.report)

  -- A row that fires nothing, and a state that counts the same.
  quiet-Grows :
      (k : String) (n : ℕ) (p q : Pass W) (r : Row)
      → iterations_of (lookup k q.states) ≡ iterations_of (lookup k p.states)
      → q.report ≡ p.report ++ r ∷ []
      → is_fire r.action ≡ false
      → (q.dirty ≡ false → p.dirty ≡ false)
      → Grows k n p q
  quiet-Grows k n p q r i rep calm d =
      let same : fires k q.report ≡ fires k p.report =
        ap (fires k) rep ∙ ground (arith, fires-append k p.report r) in
      record {
        even = omega (arith, i, same);
        least = omega (arith, same);
        most = omega (arith, same);
        saved = λ h. (d h, omega (arith, same));
      }

  settle_launch-Grows :
      (k : String) (s : Schedule) (now : ℕ) (st : ScheduleState) (ids : Option (List String))
      (p : Pass W)
      → lookup s.name p.states ≡ some st
      → Grows k (one_if (str_eq s.name k)) p (settle_launch s now st ids p)
  unfolding settle_launch
  settle_launch-Grows k s now st none p h = quiet-Grows k _ p _ _ refl refl refl (λ d. d)
  settle_launch-Grows k s now st (some ids) p h =
      let r : Row = record { schedule = s.name; action = fired; job_ids = ids } in
      let q = settle_launch s now st (some ids) p in
      let grown : fires k q.report ≡ fires k p.report + one_if (str_eq s.name k) =
        fires-append k p.report r in
      let count : iterations_of (lookup k q.states)
          ≡ iterations_of (lookup k p.states) + one_if (str_eq s.name k) =
        iterations-fired k s.name (fired_state s ids now st) st p.states h
          (fired_state-iterations s ids now st) in
      record {
        even = omega (arith, grown, count);
        least = omega (arith, grown);
        most = omega (arith, grown);
        saved = λ d. absurd (ground arith);
      }

  fire-Grows :
      (k : String) (o : Outside W) (dry_run : Bool) (now : ℕ) (s : Schedule) (l : Launcher)
      (st : ScheduleState) (p : Pass W)
      → lookup s.name p.states ≡ some st
      → Grows k (one_if (str_eq s.name k)) p (fire o dry_run now s l st p)
  unfolding fire
  fire-Grows k o true now s l st p h = quiet-Grows k _ p _ _ refl refl refl (λ d. d)
  fire-Grows k o false now s l st p h =
      let (ids, w) = launch o l (origin_of s l st) s.requires_approval p.world in
      let g = settle_launch-Grows k s now st ids (record p { world = w }) h in
      record { even = g.even; least = g.least; most = g.most; saved = g.saved }

  unless_active-Grows :
      (k : String) (o : Outside W) (dry_run : Bool) (now : ℕ) (s : Schedule) (l : Launcher)
      (st : ScheduleState) (p : Pass W)
      → lookup s.name p.states ≡ some st
      → Grows k (one_if (str_eq s.name k)) p (unless_active o dry_run now s l st p)
  unfolding unless_active
  unless_active-Grows k o dry_run now s l st p h =
      let (busy, w) = overlaps o s st p.world in
      elim (Bool-cases busy) [
        | inl held ↦ rw held (quiet-Grows k _ p _ _ refl refl refl (λ d. d))
        | inr free ↦
            let g = fire-Grows k o dry_run now s l st (record p { world = w }) h in
            rw free (record { even = g.even; least = g.least; most = g.most; saved = g.saved })
      ]

  finish_loop-Grows :
      (k role : String) (s : Schedule) (st : ScheduleState) (p : Pass W)
      → lookup s.name p.states ≡ some st
      → Grows k (one_if (str_eq s.name k)) p (finish_loop role s st p)
  unfolding finish_loop
  finish_loop-Grows k role s st p h =
      quiet-Grows k _ p (finish_loop role s st p) _
        (iterations-kept k s.name (record st { exhausted_reason = some (queue_empty role) }) st
          p.states h refl)
        refl refl (λ d. absurd (ground arith))

  with_launcher-Grows :
      (k : String) (o : Outside W) (dry_run : Bool) (now : ℕ) (s : Schedule) (l : Launcher)
      (st : ScheduleState) (p : Pass W)
      → lookup s.name p.states ≡ some st
      → Grows k (one_if (str_eq s.name k)) p (with_launcher o dry_run now s l st p)
  unfolding with_launcher
  with_launcher-Grows k o dry_run now s l st p h = elim (Option-cases (given s.until_empty)) [
    | inl free ↦ rw (free, with_launcher) (unless_active-Grows k o dry_run now s l st p h)
    | inr (role, bound) ↦
        let (clear, w) = queue_is_empty o role p.world in
        elim (Bool-cases (is_clear clear)) [
          | inl cleared ↦
              let g = finish_loop-Grows k role s st (record p { world = w }) h in
              rw (bound, cleared, with_launcher)
                (record { even = g.even; least = g.least; most = g.most; saved = g.saved })
          | inr busy ↦
              let g = unless_active-Grows k o dry_run now s l st (record p { world = w }) h in
              rw (bound, busy, with_launcher)
                (record { even = g.even; least = g.least; most = g.most; saved = g.saved })
        ]
  ]

  visit-Grows :
      (k : String) (o : Outside W) (launchers : Dict Launcher) (dry_run : Bool) (now : ℕ)
      (s : Schedule) (p : Pass W)
      → Grows k (one_if (str_eq s.name k)) p (visit o launchers dry_run now s p).1
  unfolding visit
  visit-Grows k o launchers dry_run now s p =
      let st = state_or_new s.name (lookup s.name p.states) in
      let q : Pass W = record p { states = insert s.name st p.states } in
      let same = iterations-default k s.name p.states in
      let there : lookup s.name q.states ≡ some st =
        lookup-insert s.name s.name st p.states ∙ rw (eq_refl s.name) refl in
      elim (Option-cases (lookup s.launcher launchers)) [
        | inl gone ↦
            rw (gone, visit)
              (record {
                even = omega (arith, same);
                least = omega arith;
                most = omega arith;
                saved = λ d. (d, omega arith);
              })
        | inr (l, found) ↦
            let g = with_launcher-Grows k o dry_run now s l st q there in
            rw (found, visit)
              (record {
                even = omega (arith, same, g.even);
                least = g.least;
                most = g.most;
                saved = g.saved;
              })
      ]

  Grows-trans :
      (k : String) (n m : ℕ) (p q r : Pass W) → Grows k n p q → Grows k m q r → Grows k (n + m) p r
  Grows-trans k n m p q r g h = record {
    even = omega (arith, g.even, h.even);
    least = omega (arith, g.least, h.least);
    most = omega (arith, g.most, h.most);
    saved = λ d. let (d', x) = h.saved d in let (d'', y) = g.saved d' in (d'', omega (arith, x, y));
  }

  -- A pass over the schedules that are due.
  pub visit_all-Grows :
      (k : String) (o : Outside W) (launchers : Dict Launcher) (dry_run : Bool) (now : ℕ)
      (ss : List Schedule) (p : Pass W)
      → Grows k (named k ss) p (visit_all o launchers dry_run now ss p).1
  unfolding visit_all named
  visit_all-Grows k o launchers dry_run now [] p = record {
    even = refl;
    least = omega arith;
    most = omega arith;
    saved = λ d. (d, omega arith);
  }
  visit_all-Grows k o launchers dry_run now (s ∷ ss) p =
      let first = visit-Grows k o launchers dry_run now s p in
      elim (Result-cases (visit o launchers dry_run now s p).0) [
        | inr (e, bad) ↦
            rw (bad, visit_all)
              (record {
                even = first.even;
                least = first.least;
                most = omega (arith, first.most);
                saved = first.saved;
              })
        | inl (u, fine) ↦
            rw (fine, visit_all)
              (Grows-trans k (one_if (str_eq s.name k)) (named k ss) p
                (visit o launchers dry_run now s p).1 _ first
                (visit_all-Grows k o launchers dry_run now ss
                  (visit o launchers dry_run now s p).1))
      ]
