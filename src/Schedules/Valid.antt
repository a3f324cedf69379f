-- ===== src/Schedules/Valid.antt =====
-- What a document of schedules that is taken promises (src/mco/scheduler.py, `parse_config`).
use bit_cadence.Prelude.{
  ◌≡◌, refl, sym, ap, subst, ◌∙◌, String, Bool, true, false, ◌&&◌, ◌||◌, not, some, [], ◌∷◌, arith,
  is_some, lookup, insert, lookup-insert, Dict, str_eq, eq_iff, Bool-cases, inl, inr, ok, require,
  bind-ok, ok-injective, ◌>>◌,
}
use bit_cadence.Schedules.Due.{Schedule, Kind, schedule, loop}
use bit_cadence.Schedules.Launch.{Launcher}
use bit_cadence.Schedules.Config.{
  RawLauncher, RawSchedule, Parsed, parse_schedule, parse_overlap, parse_schedules, parse_loops,
  parse_launchers, check_launchers, parse_config, ConfigError, is_loop, at_least_one, opt_str, has,
  is_empty, unknown_field, no_launcher, two_triggers, no_trigger, bad_iterations,
  until_empty_on_schedule, until_empty_uncapped, unbounded_loop, bad_interval, name_taken,
  unknown_launcher,
}

-- A loop has an end or a cap, what waits for a queue to empty is a loop with a cap, a cap is at least one, and
-- there is one trigger, which is no interval of nothing.
pub record IsValid (s : Schedule) : Type 0 where
  pub ends : is_loop s.kind ≡ true → (is_some s.max_iterations || is_some s.until) ≡ true
  pub waits : is_some s.until_empty ≡ true → (is_loop s.kind && is_some s.max_iterations) ≡ true
  pub counts : at_least_one s.max_iterations ≡ true
  pub triggered : is_some s.cron ≡ not (is_some s.every)
  pub passes : at_least_one s.every ≡ true

IsValid-by :
    (s : Schedule)
    → not (is_some s.cron && is_some s.every) ≡ true
    → (is_some s.cron || is_some s.every) ≡ true
    → at_least_one s.max_iterations ≡ true
    → (not (is_some s.until_empty) || is_loop s.kind) ≡ true
    → (not (is_some s.until_empty) || is_some s.max_iterations) ≡ true
    → (not (is_loop s.kind) || is_some s.max_iterations || is_some s.until) ≡ true
    → at_least_one s.every ≡ true
    → IsValid s
IsValid-by s a b c d e f g = record {
  ends = λ h. ground arith;
  waits = λ h. ground arith;
  counts = c;
  triggered = ground arith;
  passes = g;
}

-- A check that passes, and the rest.
passed :
    {B : Type 0} (b : Bool) (reason : ConfigError) (rest : Parsed B) (x : B)
    → (require b reason >> rest) ≡ ok x
    → (b ≡ true) × (rest ≡ ok x)
passed true reason rest x h = (refl, h)
passed false reason rest x h = absurd (ground arith)

parse_schedule-IsValid :
    (name : String) (kind : Kind) (r : RawSchedule) (s : Schedule)
    → parse_schedule name kind r ≡ ok s
    → IsValid s × (s.name ≡ name)
unfolding parse_schedule
parse_schedule-IsValid name kind r s h =
    let (a1, h1) = passed (is_empty r.unknown) unknown_field _ s h in
    let (a2, h2) = passed (has r.launcher) no_launcher _ s h1 in
    let (a3, h3) = passed (not (is_some r.cron && is_some r.every)) two_triggers _ s h2 in
    let (a4, h4) = passed (is_some r.cron || is_some r.every) no_trigger _ s h3 in
    let (overlap, a5, h5) = bind-ok (parse_overlap r.overlap) _ s h4 in
    let (a6, h6) = passed (at_least_one r.max_iterations) bad_iterations _ s h5 in
    let (a7, h7) =
      passed (not (is_some (opt_str r.until_empty)) || is_loop kind) until_empty_on_schedule _ s
        h6 in
    let (a8, h8) =
      passed (not (is_some (opt_str r.until_empty)) || is_some r.max_iterations)
        until_empty_uncapped _ s h7 in
    let (a9, h9) =
      passed (not (is_loop kind) || is_some r.max_iterations || is_some r.until) unbounded_loop _ s
        h8 in
    let (a10, h10) = passed (at_least_one r.every) bad_interval _ s h9 in
    subst (λ x. IsValid x × (x.name ≡ name)) (ok-injective _ s h10)
      (IsValid-by _ a3 a4 a6 a7 a8 a9 a10, refl)

-- A schedule of the table is valid, and bears the name that it stands under.
abbrev AllValid : Dict Schedule → Type 0
AllValid d = (k : String) (s : Schedule) → lookup k d ≡ some s → IsValid s × (s.name ≡ k)

AllValid-insert :
    (k : String) (s : Schedule) (d : Dict Schedule)
    → IsValid s × (s.name ≡ k)
    → AllValid d
    → AllValid (insert k s d)
AllValid-insert k s d (v, n) all j t h = elim (Bool-cases (str_eq k j)) [
  | inl same ↦
      let q : s ≡ t = ground (arith, lookup-insert k j s d) in
      let i : k ≡ j = ground (arith, eq_iff k j) in
      (subst IsValid q v, ap (λ x. x.name) (sym q) ∙ n ∙ i)
  | inr other ↦ all j t (ground (arith, lookup-insert k j s d))
]

parse_schedules-AllValid :
    (raws : Dict RawSchedule) (d e : Dict Schedule)
    → AllValid d
    → parse_schedules raws d ≡ ok e
    → AllValid e
unfolding parse_schedules
parse_schedules-AllValid [] d e all h = subst AllValid (ok-injective d e h) all
parse_schedules-AllValid ((k, r) ∷ raws) d e all h =
    let (s, p, h1) = bind-ok (parse_schedule k schedule r) _ e h in
    parse_schedules-AllValid raws (insert k s d) e
      (AllValid-insert k s d (parse_schedule-IsValid k schedule r s p) all) h1

parse_loops-AllValid :
    (raws : Dict RawSchedule) (d e : Dict Schedule)
    → AllValid d
    → parse_loops raws d ≡ ok e
    → AllValid e
unfolding parse_loops
parse_loops-AllValid [] d e all h = subst AllValid (ok-injective d e h) all
parse_loops-AllValid ((k, r) ∷ raws) d e all h =
    let (fresh, h1) = passed (not (is_some (lookup k d))) name_taken _ e h in
    let (s, p, h2) = bind-ok (parse_schedule k loop r) _ e h1 in
    parse_loops-AllValid raws (insert k s d) e
      (AllValid-insert k s d (parse_schedule-IsValid k loop r s p) all) h2

check_launchers-known :
    (launchers : Dict Launcher) (d : Dict Schedule) (u : Unit {0})
    → check_launchers launchers d ≡ ok u
    → (k : String) (s : Schedule) → lookup k d ≡ some s
    → is_some (lookup s.launcher launchers) ≡ true
unfolding check_launchers lookup
check_launchers-known launchers [] u h k s p = absurd (ground arith)
check_launchers-known launchers ((j, t) ∷ d) u h k s p =
    let (known, h1) = passed (is_some (lookup t.launcher launchers)) unknown_launcher _ u h in
    elim (Bool-cases (str_eq j k)) [
      | inl same ↦
          let q : t ≡ s = ground arith in
          subst (λ x. is_some (lookup x.launcher launchers) ≡ true) q known
      | inr other ↦ check_launchers-known launchers d u h1 k s (rw (other, lookup) at p)
    ]

-- Every schedule of a document that is taken stands under its own name, and its launcher is one of the document's;
-- a loop has an end or a cap, one that waits for a queue to empty is a loop with a cap, a cap is at
-- least one, and there is one trigger, which is no interval of nothing.
pub parse_config-IsValid :
    (raw_launchers : Dict RawLauncher) (raw_schedules raw_loops : Dict RawSchedule)
    (launchers : Dict Launcher) (schedules : Dict Schedule)
    → parse_config raw_launchers raw_schedules raw_loops ≡ ok (launchers, schedules)
    → (k : String) (s : Schedule) → lookup k schedules ≡ some s
    → IsValid s × (s.name ≡ k) × (is_some (lookup s.launcher launchers) ≡ true)
unfolding parse_config lookup
parse_config-IsValid raw_launchers raw_schedules raw_loops launchers schedules h k s p =
    let (ls, p1, h1) = bind-ok (parse_launchers raw_launchers []) _ (launchers, schedules) h in
    let (first, p2, h2) = bind-ok (parse_schedules raw_schedules []) _ (launchers, schedules) h1 in
    let (all, p3, h3) = bind-ok (parse_loops raw_loops first) _ (launchers, schedules) h2 in
    let (u, p4, h4) = bind-ok (check_launchers ls all) _ (launchers, schedules) h3 in
    let q : (ls, all) ≡ (launchers, schedules) = ok-injective (ls, all) (launchers, schedules) h4 in
    let e : all ≡ schedules = ap (λ x. x.1) q in
    let l : ls ≡ launchers = ap (λ x. x.0) q in
    let there : lookup k all ≡ some s = ap (lookup k) e ∙ p in
    let none_yet : AllValid [] = λ j t g. absurd (ground arith) in
    let (valid, name) =
      parse_loops-AllValid raw_loops first all
        (parse_schedules-AllValid raw_schedules [] first none_yet p2) p3 k s there in
    (
      valid,
      name,
      subst (λ x. is_some (lookup s.launcher x) ≡ true) l
          (check_launchers-known ls all u p4 k s there),
    )
