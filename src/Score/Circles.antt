-- ===== src/Score/Circles.antt =====
-- A document of a score is refused for its dependencies only where they have a circle
-- (src/mco/orchestrator/scores.py, `load_score`).
use bit_cadence.Prelude.{
  ℕ, zero, suc, ◌≤◌, ◌≡◌, refl, String, true, false, List, [], ◌∷◌, arith, length, contains,
  Bool-cases, inl, inr, ◌⊎◌, All, if◌then◌else◌,
}
use bit_cadence.Score.Plan.{
  Graph, nodes, left_over, taken, Ending, placed, no_progress, unwind, disjoint, is_nil,
}
use bit_cadence.Score.Rounds.{length-left_over}

-- A target of the row is a node of the graph.
abbrev pub Waits : Graph → (String × List String) → Type 0
Waits c row = (x : String) × (contains x row.1 ≡ true) × (contains x (nodes c) ≡ true)

-- Tasks, one at least, of which each depends on one of them.
pub record IsCircle (g c : Graph) : Type 0 where
  pub inhabited : is_nil c ≡ false
  pub waiting : All (Waits c) c
  pub part : (k : String) → contains k (nodes c) ≡ true → contains k (nodes g) ≡ true

-- Every target of a row is done or a node.
abbrev pub Closed : List String → List String → Graph → Type 0
Closed ks done =
    All (λ row.
      (x : String) → contains x row.1 ≡ true → contains x done ≡ false → contains x ks ≡ true)

filled-length : (xs : List String) → is_nil xs ≡ false → 1 ≤ length xs
filled-length [] h = absurd (ground arith)
filled-length (x ∷ xs) h = omega arith

-- what the loop ends with: an order, or a round without progress and a circle
abbrev pub Decided : Graph → Ending → Type 0
Decided g answer =
    ((order : List String) × (answer ≡ placed order))
    ⊎ ((answer ≡ no_progress) × (c : Graph) × IsCircle g c)

unwind-round :
    (n : ℕ) (row : String × List String) (p : Graph)
    → let test = λ (ts : List String). disjoint ts (nodes (row ∷ p)) in
      unwind (suc n) (row ∷ p)
      ≡ (if is_nil (taken test (row ∷ p)) then false else unwind n (left_over test (row ∷ p)))
unfolding unwind
unwind-round n row p = refl

-- A bound of one round for each row is enough for the loop on `on_reject`: more rounds give the same.
unwind-enough : (n : ℕ) (p : Graph) → length p ≤ n → unwind (suc n) p ≡ unwind n p
unwind-enough zero [] h = unfold unwind in refl
unwind-enough (suc n) [] h = unfold unwind in refl
unwind-enough zero (row ∷ p) h = absurd (omega (arith, h))
unwind-enough (suc n) (row ∷ p) h =
    let test = λ (ts : List String). disjoint ts (nodes (row ∷ p)) in
    elim (Bool-cases (is_nil (taken test (row ∷ p)))) [
      | inl stuck ↦ rw (unwind-round (suc n) row p, unwind-round n row p, stuck) refl
      | inr more ↦
          let fewer : length (left_over test (row ∷ p)) ≤ n = omega (
            arith,
            length-left_over test (row ∷ p),
            filled-length (taken test (row ∷ p)) more,
            h,
          ) in
          rw (unwind-round (suc n) row p, unwind-round n row p, more)
            (unwind-enough n (left_over test (row ∷ p)) fewer)
    ]
