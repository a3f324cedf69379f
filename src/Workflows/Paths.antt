-- ===== src/Workflows/Paths.antt =====
-- The dependencies of a workflow as a graph, and what an order of its steps is
-- (src/mco/orchestrator/workflows.py, `topo_order`).
use bit_cadence.Prelude.{
  ◌≡◌, refl, String, true, false, some, List, [], ◌∷◌, ◌++◌, arith, contains, if◌then◌else◌, Dict,
  lookup, eq_iff, str_eq, Bool-cases, inl, inr, ◌⊎◌,
}
use bit_cadence.Workflows.{Step, ids_of}

-- The step of the first id depends on the second.
pub record Edge (steps : Dict Step) (k d : String) : Type 0 where
  pub step : Step
  pub found : lookup k steps ≡ some step
  pub link : contains d step.depends_on ≡ true

-- one dependency after the other, one at least
pub data Reaches (steps : Dict Step) (k : String) : String → Type 0 where
  one : {d : String} → Edge steps k d → Reaches steps k d
  next : {j d : String} → Reaches steps k j → Edge steps j d → Reaches steps k d

-- Each step stands once, and after all that it depends on.
abbrev pub Follows : List String → List Step → Type 0
Follows before [] = Unit {0}
Follows before (s ∷ ss) =
    (contains s.id before ≡ false)
    × ((d : String) → contains d s.depends_on ≡ true → contains d before ≡ true)
    × Follows (s.id ∷ before) ss

pub contains-ids-append :
    (k : String) (xs : List Step) (s : Step)
    → contains k (ids_of (xs ++ (s ∷ [])))
      ≡ (if contains k (ids_of xs) then true else str_eq s.id k)
contains-ids-append k [] s = ground (arith)
contains-ids-append k (x ∷ xs) s = ground (arith, contains-ids-append k xs s)

str_eq_comm : (a b : String) → str_eq a b ≡ str_eq b a
str_eq_comm a b = ground (arith, eq_iff a b, eq_iff b a)

-- The first step of the rest moves to what stands before.
shift :
    (x : Step) (before : List String) (xs : List Step) (d : String)
    → (contains d before ≡ true) ⊎ (contains d (ids_of (x ∷ xs)) ≡ true)
    → (contains d (x.id ∷ before) ≡ true) ⊎ (contains d (ids_of xs) ≡ true)
shift x before xs d (inl p) = inl (ground arith)
shift x before xs d (inr q) = elim (Bool-cases (str_eq x.id d)) [
  | inl same ↦ inl (rw same refl)
  | inr other ↦ inr (rw other at q)
]

pub Follows-append :
    (before : List String) (xs : List Step) (s : Step)
    → Follows before xs
    → contains s.id before ≡ false
    → contains s.id (ids_of xs) ≡ false
    → ((d : String)
        → contains d s.depends_on ≡ true
        → (contains d before ≡ true) ⊎ (contains d (ids_of xs) ≡ true))
    → Follows before (xs ++ (s ∷ []))
Follows-append before [] s f a b deps =
    (a, λ d h. elim (deps d h) [ inl p ↦ p | inr q ↦ absurd (ground arith) ], tt)
Follows-append before (x ∷ xs) s (p, q, f) a b deps = (
  p,
  q,
  Follows-append (x.id ∷ before) xs s f (ground (arith, str_eq_comm x.id s.id)) (ground arith)
      (λ d h. shift x before xs d (deps d h)),
)
