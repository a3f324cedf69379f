-- ===== src/Score/Begins.antt =====
-- A run that has just begun, and all that can follow it (scores.py, `SandboxRun.__init__`).
use bit_cadence.Prelude.{
  ℕ, ◌≤◌, ◌≡◌, refl, ap, String, true, Option, none, some, List, [], ◌∷◌, arith, leb, lookup,
  str_eq, Dict, Bool-cases, inl, inr, ok, err, Result-cases, is_ok, is_ok-then, is_ok-first,
  is_ok-rest, is_ok-require, and-false,
}
use bit_cadence.Score.Policy.{Checked, GateStore}
use bit_cadence.Score.Plan.{Task, Plan, load_score, check_tasks, check_task}
use bit_cadence.Score.Run.{Entry, Run, count_active}
use bit_cadence.Score.Steps.{fresh_entry, fresh_states}
use bit_cadence.Score.Invariant.{IsSound}
use bit_cadence.Score.Frames.{still-IsSound}
use bit_cadence.Score.Histories.{Command, play, play-IsSound}
use bit_cadence.Score.Budgets.{play-budget}
use bit_cadence.Score.Open.{
  Projection, check_start, fresh_run, with_gates, asked, request_all, open_run, gate_key,
}

count_active-fresh_states : (ts : List Task) → count_active (fresh_states ts) ≡ 0
unfolding count_active fresh_states
count_active-fresh_states [] = refl
count_active-fresh_states (t ∷ ts) = omega (arith, count_active-fresh_states ts)

max_attempts-check_task :
    (ids : List String) (t : Task) → is_ok (check_task ids t) ≡ true → 1 ≤ t.max_attempts
unfolding check_task
max_attempts-check_task ids t h = elim (Bool-cases (leb 1 t.max_attempts)) [
  | inl some_more ↦ ground arith
  | inr never ↦ absurd (ground (arith, simp (is_ok-then, is_ok-require, never, and-false) at h))
]

lookup-head :
    (j k : String) (v e : Entry) (d : Dict Entry)
    → str_eq j k ≡ true
    → lookup k ((j, v) ∷ d) ≡ some e
    → e ≡ v
unfolding lookup
lookup-head j k v e d same p = ground arith

fresh-own :
    (ids : List String) (ts : List Task)
    → is_ok (check_tasks ids ts) ≡ true
    → (k : String) (e : Entry) → lookup k (fresh_states ts) ≡ some e
    → (t : Task) × (e ≡ fresh_entry t) × (1 ≤ t.max_attempts)
unfolding check_tasks fresh_states lookup
fresh-own ids [] h k e p = absurd (ground arith)
fresh-own ids (t ∷ ts) h k e p = elim (Bool-cases (str_eq t.id k)) [
  | inl same ↦ (
    t,
    lookup-head t.id k (fresh_entry t) e (fresh_states ts) same p,
    max_attempts-check_task ids t (is_ok-first (check_task ids t) _ h),
  )
  | inr other ↦
      fresh-own (t.id ∷ ids) ts (is_ok-rest (check_task ids t) _ h) k e (rw (other, lookup) at p)
]

tasks-load_score : (p : Plan) → is_ok (load_score p) ≡ true → is_ok (check_tasks [] p.tasks) ≡ true
unfolding load_score
tasks-load_score p h = elim (Bool-cases (is_ok (check_tasks [] p.tasks))) [
  | inl fine ↦ fine
  | inr bad ↦ absurd (ground (arith, simp (is_ok-then, bad, and-false) at h))
]

fresh-IsSound :
    (p : Plan) (digest run_id : String) (grants : List String) (authorized : ℕ)
    (service : Option GateStore) (org_id : String) (projection : Projection)
    → is_ok (load_score p) ≡ true
    → IsSound (fresh_run p digest run_id grants authorized service org_id projection)
unfolding fresh_run
fresh-IsSound p digest run_id grants authorized service org_id projection h =
    let own = fresh-own [] p.tasks (tasks-load_score p h) in
    record {
      budget = omega arith;
      parallel = omega (arith, count_active-fresh_states p.tasks);
      own = λ k e q.
          let (t, same, tries) = own k e q in
          rw same (record {
            tries = omega arith;
            more_tries = λ a. omega (arith, tries);
            claimed = λ a. absurd (ground arith);
            written = λ a. absurd (ground arith);
            timed = λ a. absurd (ground arith);
          });
      unblocked = λ k e q a. let (t, same, tries) = own k e q in absurd (ground arith);
      granted = λ k e q a. let (t, same, tries) = own k e q in absurd (ground arith);
      locks = λ k j e f n q q' a a'. let (t, same, tries) = own k e q in absurd (ground arith);
    }

asked-IsSound :
    (r r' : Run) (x : Checked (Unit {0}) × GateStore)
    → (asked r x).0 ≡ ok r'
    → IsSound r
    → IsSound r'
unfolding asked
asked-IsSound r r' (err x, s) h i = absurd (ground arith)
asked-IsSound r r' (ok _, s) h i =
    let q : r' ≡ record r { gate_service = some s } = ground arith in
    rw q (still-IsSound r (record r { gate_service = some s }) (ground arith) refl i)

with_gates-IsSound :
    (p : Plan) (r r' : Run) (service : Option GateStore)
    → (with_gates p r service).0 ≡ ok r'
    → IsSound r
    → IsSound r'
unfolding with_gates
with_gates-IsSound p r r' none h i = let q : r' ≡ r = ground arith in rw q i
with_gates-IsSound p r r' (some s) h i =
    asked-IsSound r r'
      (request_all (gate_key r.org_id r.run_id r.fingerprint) r.projected p.tasks s) h i

load_score-check_start :
    (p : Plan) (run_id : String) (grants : List String) (org_id : String) (projection : Projection)
    → is_ok (check_start p run_id grants org_id projection) ≡ true
    → is_ok (load_score p) ≡ true
unfolding check_start
load_score-check_start p run_id grants org_id projection h = is_ok-first (load_score p) _ h

fresh-budget :
    (p : Plan) (digest run_id : String) (grants : List String) (authorized : ℕ)
    (service : Option GateStore) (org_id : String) (projection : Projection)
    → (fresh_run p digest run_id grants authorized service org_id projection).budget
        ≤ p.budget_cents
      × ((fresh_run p digest run_id grants authorized service org_id projection).budget
          ≤ authorized)
unfolding fresh_run
fresh-budget p digest run_id grants authorized service org_id projection =
    (ground arith, ground arith)

asked-budget :
    (r r' : Run) (x : Checked (Unit {0}) × GateStore) → (asked r x).0 ≡ ok r' → r'.budget ≡ r.budget
unfolding asked
asked-budget r r' (err x, s) h = absurd (ground arith)
asked-budget r r' (ok _, s) h = ground arith

with_gates-budget :
    (p : Plan) (r r' : Run) (service : Option GateStore)
    → (with_gates p r service).0 ≡ ok r'
    → r'.budget ≡ r.budget
unfolding with_gates
with_gates-budget p r r' none h = ground arith
with_gates-budget p r r' (some s) h =
    asked-budget r r' (request_all (gate_key r.org_id r.run_id r.fingerprint) r.projected p.tasks s)
      h

-- What holds of a run that was opened for a plan and an authorized budget: it is sound, and what it has reserved is
-- within both budgets.
pub record IsWithin (p : Plan) (authorized : ℕ) (r : Run) : Type 0 where
  pub sound : IsSound r
  pub planned : r.reserved ≤ p.budget_cents
  pub allowed : r.reserved ≤ authorized

-- Of a run that opens, whatever steps are then tried on it, the refused ones included, and however the store
-- of the gates changes between them: what is reserved stays within the plan's budget and within the
-- authorized one, no more tasks are in work than `max_parallel` and none of them share a resource, a
-- task that has begun has all its dependencies accepted and its capabilities granted, no task is
-- tried more often than it may be, and a task in work has an author, a deadline, and the token of
-- its current attempt.
pub open_run-play-IsSound :
    (p : Plan) (digest run_id : String) (grants : List String) (authorized : ℕ)
    (service : Option GateStore) (org_id : String) (projection : Projection) (r : Run)
    (cs : List Command)
    → (open_run p digest run_id grants authorized service org_id projection).0 ≡ ok r
    → IsWithin p authorized (play r cs)
unfolding open_run
open_run-play-IsSound p digest run_id grants authorized service org_id projection r cs h =
    elim (Result-cases (check_start p run_id grants org_id projection)) [
      | inr (x, bad) ↦ absurd (ground (arith, rw (bad, open_run) at h))
      | inl (u, fine) ↦
          let s = fresh_run p digest run_id grants authorized service org_id projection in
          let opened : (with_gates p s service).0 ≡ ok r = rw (fine, open_run) at h in
          let kept = play-budget r cs in
          let gated = with_gates-budget p s r service opened in
          let (planned, allowed) =
            fresh-budget p digest run_id grants authorized service org_id projection in
          let sound = play-IsSound r cs (
            with_gates-IsSound p s r service opened (
              fresh-IsSound p digest run_id grants authorized service org_id projection
                (load_score-check_start p run_id grants org_id projection (ap is_ok fine)))) in
          let within = sound.budget in
          record {
            sound = sound;
            planned = omega (arith, within, kept, gated, planned);
            allowed = omega (arith, within, kept, gated, allowed);
          }
    ]
