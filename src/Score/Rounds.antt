-- ===== src/Score/Rounds.antt =====
-- The rows that a round of the loop over the dependencies takes out and leaves (src/mco/orchestrator/scores.py,
-- `load_score`).
use bit_cadence.Prelude.{
  ◌+◌, ◌≡◌, refl, String, Bool, true, false, List, [], ◌∷◌, ◌++◌, arith, length, contains, str_eq,
  eq_refl, Bool-cases, inl, inr, All,
}
use bit_cadence.Score.Plan.{Graph, nodes, left_over, taken, within}

pub missing :
    (deps done : List String)
    → within deps done ≡ false
    → (x : String) × (contains x deps ≡ true) × (contains x done ≡ false)
missing [] done h = absurd (ground arith)
missing (d ∷ deps) done h = elim (Bool-cases (contains d done)) [
  | inr gone ↦ (d, ground (arith, eq_refl d), gone)
  | inl there ↦ let (x, a, b) = missing deps done (rw there at h) in (x, ground arith, b)
]

-- A node is taken out or left.
pub left_or_taken :
    (test : List String → Bool) (p : Graph) (x : String)
    → contains x (nodes p) ≡ true
    → contains x (taken test p) ≡ false
    → contains x (nodes (left_over test p)) ≡ true
unfolding left_over taken
left_or_taken test [] x h t = absurd (ground arith)
left_or_taken test ((k, ts) ∷ p) x h t = elim (Bool-cases (test ts)) [
  | inl ready ↦
      let t' : contains x (k ∷ taken test p) ≡ false = rw (ready, taken) at t in
      rw (ready, left_over) (left_or_taken test p x (ground arith) (ground arith))
  | inr waits ↦
      let t' : contains x (taken test p) ≡ false = rw (waits, taken) at t in
      elim (Bool-cases (str_eq k x)) [
        | inl same ↦ rw (waits, left_over, same) refl
        | inr other ↦ rw (waits, left_over, other) (left_or_taken test p x (rw other at h) t')
      ]
]

pub left_over-nodes :
    (test : List String → Bool) (p : Graph) (x : String)
    → contains x (nodes (left_over test p)) ≡ true
    → contains x (nodes p) ≡ true
unfolding left_over
left_over-nodes test [] x h = h
left_over-nodes test ((k, ts) ∷ p) x h = elim (Bool-cases (test ts)) [
  | inl ready ↦ ground (arith, left_over-nodes test p x (rw (ready, left_over) at h))
  | inr waits ↦
      let h' : contains x (k ∷ nodes (left_over test p)) ≡ true = rw (waits, left_over) at h in
      elim (Bool-cases (str_eq k x)) [
        | inl same ↦ rw same refl
        | inr other ↦ rw other (left_over-nodes test p x (rw other at h'))
      ]
]

pub left_over-All :
    (P : (String × List String) → Type 0) (test : List String → Bool) (p : Graph)
    → All P p
    → All P (left_over test p)
unfolding left_over
left_over-All P test [] a = tt
left_over-All P test ((k, ts) ∷ p) (a, more) = elim (Bool-cases (test ts)) [
  | inl ready ↦ rw ready (left_over-All P test p more)
  | inr waits ↦ rw waits (a, left_over-All P test p more)
]

pub length-left_over :
    (test : List String → Bool) (p : Graph)
    → length (left_over test p) + length (taken test p) ≡ length p
unfolding left_over taken
length-left_over test [] = refl
length-left_over test ((k, ts) ∷ p) = elim (Bool-cases (test ts)) [
  | inl ready ↦ rw ready (omega (arith, length-left_over test p))
  | inr waits ↦ rw waits (omega (arith, length-left_over test p))
]

pub not_in-append :
    (x : String) (ys zs : List String)
    → contains x (ys ++ zs) ≡ false
    → (contains x ys ≡ false) × (contains x zs ≡ false)
not_in-append x [] zs h = (refl, h)
not_in-append x (y ∷ ys) zs h = elim (Bool-cases (str_eq y x)) [
  | inl same ↦ absurd (ground arith)
  | inr other ↦ let (a, b) = not_in-append x ys zs (rw other at h) in (rw other a, b)
]
