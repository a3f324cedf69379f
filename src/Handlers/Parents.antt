-- ===== src/Handlers/Parents.antt =====
-- What the test on a dependent's parents says, and who is released (handlers.py, `_unlock_dependents`).
use bit_cadence.Prelude.{
  suc, ◌≤◌, ◌≡◌, refl, sym, ap, subst, ◌∙◌, String, Bool, true, false, some, List, [], ◌∷◌, arith,
  length, all_by, contains, lookup, Dict, str_eq, eq_iff, Option-cases, Bool-cases, inl, inr, All,
}
use mathlib.Core.List.{Memᴰ}
use bit_cadence.Board.{Job, is_waiting, is_completed}
use bit_cadence.Handlers.Hub.{Hub, distinct, rows_of, all_completed, is_ready, unlock_dependents}
use bit_cadence.Handlers.Dependents.{unlock_dependents-opened}
use bit_cadence.Handlers.Turns.{opened, opened-ready, opened-unready, made_ready}

-- a job that is on the board and completed
abbrev pub Finished : Dict Job → String → Type 0
Finished jobs d = (p : Job) × (lookup d jobs ≡ some p) × (is_completed p.status ≡ true)

abbrev completed_row : Job → Bool
completed_row j = is_completed j.status

Mem-contains : (x : String) (xs : List String) → contains x xs ≡ true → Memᴰ x xs
Mem-contains x [] h = absurd (ground arith)
Mem-contains x (y ∷ ys) h = elim (Bool-cases (str_eq y x)) [
  | inl same ↦ Memᴰ.head (sym ((eq_iff y x).0 same))
  | inr other ↦ Memᴰ.tail (Mem-contains x ys (ground arith))
]

again-distinct :
    (d x : String) (xs ds : List String)
    → contains x xs ≡ true
    → (Memᴰ d xs → Memᴰ d ds)
    → Memᴰ d (x ∷ xs)
    → Memᴰ d ds
again-distinct d x xs ds again kept (Memᴰ.head e) = kept (Mem-contains d xs (rw e again))
again-distinct d x xs ds again kept (Memᴰ.tail m) = kept m

once-distinct :
    (d x : String) (xs ds : List String)
    → (Memᴰ d xs → Memᴰ d ds)
    → Memᴰ d (x ∷ xs)
    → Memᴰ d (x ∷ ds)
once-distinct d x xs ds kept (Memᴰ.head e) = Memᴰ.head e
once-distinct d x xs ds kept (Memᴰ.tail m) = Memᴰ.tail (kept m)

Mem-distinct : (d : String) (ds : List String) → Memᴰ d ds → Memᴰ d (distinct ds)
unfolding distinct
Mem-distinct d [] m = elim m [ ]
Mem-distinct d (x ∷ xs) m = elim (Bool-cases (contains x xs)) [
  | inl again ↦ rw again (again-distinct d x xs (distinct xs) again (Mem-distinct d xs) m)
  | inr once ↦ rw once (once-distinct d x xs (distinct xs) (Mem-distinct d xs) m)
]

All-distinct :
    (jobs : Dict Job) (ds : List String)
    → All (Finished jobs) ds
    → All (Finished jobs) (distinct ds)
unfolding distinct
All-distinct jobs [] a = tt
All-distinct jobs (x ∷ xs) a = elim (Bool-cases (contains x xs)) [
  | inl again ↦ rw again (All-distinct jobs xs a.1)
  | inr once ↦ rw once (a.0, All-distinct jobs xs a.1)
]

length-rows_of : (ds : List String) (jobs : Dict Job) → length (rows_of ds jobs) ≤ length ds
unfolding rows_of
length-rows_of [] jobs = omega arith
length-rows_of (d ∷ ds) jobs = elim (Option-cases (lookup d jobs)) [
  | inl e ↦ rw e (omega (arith, length-rows_of ds jobs))
  | inr (j, e) ↦ rw e (omega (arith, length-rows_of ds jobs))
]

rows_of-Finished :
    (ds : List String) (jobs : Dict Job)
    → length (rows_of ds jobs) ≡ length ds
    → all_by completed_row (rows_of ds jobs) ≡ true
    → All (Finished jobs) ds
unfolding rows_of
rows_of-Finished [] jobs n c = tt
rows_of-Finished (x ∷ xs) jobs n c = elim (Option-cases (lookup x jobs)) [
  | inl e ↦ absurd (ground (arith, length-rows_of xs jobs))
  | inr (j, e) ↦ ((j, e, ground arith), rows_of-Finished xs jobs (ground arith) (ground arith))
]

Finished-rows_of :
    (ds : List String) (jobs : Dict Job)
    → All (Finished jobs) ds
    → (length (rows_of ds jobs) ≡ length ds) × (all_by completed_row (rows_of ds jobs) ≡ true)
unfolding rows_of
Finished-rows_of [] jobs a = (refl, refl)
Finished-rows_of (d ∷ ds) jobs a =
    let (n, c) = Finished-rows_of ds jobs a.1 in
    let (p, e, done) = a.0 in rw e (ap suc n, rw done c)

All-Mem :
    (jobs : Dict Job) (d : String) (ds : List String)
    → All (Finished jobs) ds
    → Memᴰ d ds
    → Finished jobs d
All-Mem jobs d [] a m = elim m [ ]
All-Mem jobs d (x ∷ xs) a (Memᴰ.head e) = subst (Finished jobs) (sym e) a.0
All-Mem jobs d (x ∷ xs) a (Memᴰ.tail m) = All-Mem jobs d xs a.1 m

pub all_completed-Finished :
    (deps : List String) (jobs : Dict Job) (d : String)
    → all_completed deps jobs ≡ true
    → Memᴰ d deps
    → Finished jobs d
unfolding all_completed
all_completed-Finished deps jobs d h m =
    All-Mem jobs d (distinct deps)
      (rows_of-Finished (distinct deps) jobs (ground arith) (ground arith)) (Mem-distinct d deps m)

pub Finished-all_completed :
    (deps : List String) (jobs : Dict Job)
    → All (Finished jobs) deps
    → all_completed deps jobs ≡ true
unfolding all_completed
Finished-all_completed deps jobs a =
    let (n, c) = Finished-rows_of (distinct deps) jobs (All-distinct jobs deps a) in
    rw (n, c) (ground arith)

-- A job that stops waiting when a task is completed depends on that task, and every job it depends on
-- is on the board and completed.
pub unlock_dependents-parents :
    (task k d : String) (h : Hub) (i j : Job)
    → lookup k h.db.jobs ≡ some j
    → is_waiting j.status ≡ true
    → lookup k (unlock_dependents task h).db.jobs ≡ some i
    → is_waiting i.status ≡ false
    → Memᴰ d j.depends_on
    → Memᴰ task j.depends_on × Finished h.db.jobs d
unfolding is_ready
unlock_dependents-parents task k d h i j e w after gone m =
    elim (Bool-cases (is_ready task h.db.jobs j)) [
      | inl ready ↦ (
        Mem-contains task j.depends_on (ground arith),
        all_completed-Finished j.depends_on h.db.jobs d (ground arith) m,
      )
      | inr wait ↦
          absurd (
            ground (arith, unlock_dependents-opened task k h, opened-unready task h.db.jobs j wait))
    ]

-- No job is forgotten: one that waits, is none of a score's, depends on the completed task, and
-- depends on completed jobs only, is pending afterwards, or needs approval if it is gated.
pub unlock_dependents-releases :
    (task k : String) (h : Hub) (j : Job)
    → lookup k h.db.jobs ≡ some j
    → is_waiting j.status ≡ true
    → j.score_owned ≡ false
    → contains task j.depends_on ≡ true
    → All (Finished h.db.jobs) j.depends_on
    → lookup k (unlock_dependents task h).db.jobs ≡ some (made_ready j)
unfolding is_ready
unlock_dependents-releases task k h j e w free child finished =
    let all = Finished-all_completed j.depends_on h.db.jobs finished in
    unlock_dependents-opened task k h
    ∙ ap (opened task h.db.jobs) e
    ∙ opened-ready task h.db.jobs j w (rw (free, child, all) refl)
