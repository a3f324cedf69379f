-- ===== src/Handlers/Creation.antt =====
-- The first status of a job against the test that releases it later (handlers.py, `_initial_status`).
use bit_cadence.Prelude.{
  ◌≡◌, refl, String, Bool, true, false, not, none, some, List, [], ◌∷◌, arith, any_by, lookup, Dict,
  Bool-cases, inl, inr, All,
}
use mathlib.Core.List.{Memᴰ}
use bit_cadence.Board.{Job, pending, is_waiting}
use bit_cadence.Handlers.Hub.{initial_status, unfinished, all_completed}
use bit_cadence.Handlers.Parents.{Finished, all_completed-Finished, Finished-all_completed}

abbrev pub OnBoard : Dict Job → String → Type 0
OnBoard jobs d = (j : Job) × (lookup d jobs ≡ some j)

abbrev blocks : Dict Job → String → Bool
blocks jobs d = unfinished (lookup d jobs)

Finished-All :
    (jobs : Dict Job) (deps : List String)
    → All (OnBoard jobs) deps
    → any_by (blocks jobs) deps ≡ false
    → All (Finished jobs) deps
Finished-All jobs [] on free = tt
Finished-All jobs (d ∷ ds) on free =
    let (j, e) = on.0 in ((j, e, ground arith), Finished-All jobs ds on.1 (ground arith))

blocking_one :
    (jobs : Dict Job) (deps : List String)
    → any_by (blocks jobs) deps ≡ true
    → (d : String) × Memᴰ d deps × (blocks jobs d ≡ true)
blocking_one jobs [] h = absurd (ground arith)
blocking_one jobs (d ∷ ds) h = elim (Bool-cases (blocks jobs d)) [
  | inl here ↦ (d, Memᴰ.head refl, here)
  | inr free ↦ let (d', m, there) = blocking_one jobs ds (ground arith) in (d', Memᴰ.tail m, there)
]

Finished-free : (jobs : Dict Job) (d : String) → Finished jobs d → blocks jobs d ≡ false
Finished-free jobs d (p, e, done) = rw e (rw done refl)

-- A new job whose dependencies are all on the board starts out waiting exactly if the test that would
-- release it, that all of them are completed, fails.
pub initial_status-all_completed :
    (jobs : Dict Job) (deps : List String) (gated : Bool)
    → All (OnBoard jobs) deps
    → is_waiting (initial_status jobs deps gated) ≡ not (all_completed deps jobs)
unfolding initial_status
initial_status-all_completed jobs deps gated on = elim (Bool-cases (any_by (blocks jobs) deps)) [
  | inl h ↦ elim (Bool-cases (all_completed deps jobs)) [
    | inl all ↦
        let (d, m, blocked) = blocking_one jobs deps h in
        absurd (ground (arith, Finished-free jobs d (all_completed-Finished deps jobs d all m)))
    | inr some_open ↦ rw (h, some_open) refl
  ]
  | inr h ↦ rw (h, Finished-all_completed deps jobs (Finished-All jobs deps on h)) (ground arith)
]

-- A dependency that is not on the board does not hold a new job back, although the test that releases
-- waiting jobs fails on it: with the others completed the job starts out pending.
pub initial_status-absent :
    (jobs : Dict Job) (deps : List String) (d : String)
    → Memᴰ d deps
    → lookup d jobs ≡ none
    → any_by (λ x. unfinished (lookup x jobs)) deps ≡ false
    → (initial_status jobs deps false ≡ pending) × (all_completed deps jobs ≡ false)
unfolding initial_status
initial_status-absent jobs deps d m gone free = (
  rw free refl,
  elim (Bool-cases (all_completed deps jobs)) [
    | inl all ↦ let (p, e, _) = all_completed-Finished deps jobs d all m in absurd (ground arith)
    | inr missing ↦ missing
  ],
)
