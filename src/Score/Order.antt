-- ===== src/Score/Order.antt =====
-- The loop of `load_score` over the dependencies finds an order of the tasks, or a circle
-- (src/mco/orchestrator/scores.py).
use bit_cadence.Prelude.{
  ℕ, zero, suc, ◌≡◌, refl, sym, ap, subst, ◌∙◌, String, Bool, true, false, List, [], ◌∷◌, ◌++◌,
  arith, contains, str_eq, eq_iff, eq_refl, Bool-cases, inl, inr, ◌⊎◌, All,
}
use bit_cadence.Score.Plan.{Graph, Ending, placed, left_over, taken, settle, within, is_nil}

-- The node stands in the order, newest first, after all of its targets.
unfoldable pub Placed : String → List String → List String → Type 0
Placed k deps [] = ⊥
Placed k deps (x ∷ xs) = (x ≡ k) × (within deps xs ≡ true) ⊎ Placed k deps xs

-- Every task stands in the order, after all that it depends on.
abbrev pub IsOrder : Graph → List String → Type 0
IsOrder g order = All (λ row. Placed row.0 row.1 order) g

contains-append :
    (x : String) (ys zs : List String) → contains x zs ≡ true → contains x (ys ++ zs) ≡ true
contains-append x [] zs h = h
contains-append x (y ∷ ys) zs h = ground (arith, contains-append x ys zs h)

within-append : (xs ys zs : List String) → within xs zs ≡ true → within xs (ys ++ zs) ≡ true
within-append [] ys zs h = refl
within-append (x ∷ xs) ys zs h = elim (Bool-cases (contains x zs)) [
  | inl there ↦ rw (contains-append x ys zs there) (within-append xs ys zs (ground arith))
  | inr gone ↦ absurd (ground arith)
]

Placed-append :
    (k : String) (deps ys zs : List String) → Placed k deps zs → Placed k deps (ys ++ zs)
unfolding Placed
Placed-append k deps [] zs p = p
Placed-append k deps (y ∷ ys) zs p = inr (Placed-append k deps ys zs p)

-- What a round takes out stands after its targets.
Placed-taken :
    (done ready : List String) (k : String) (deps : List String)
    → within deps done ≡ true
    → contains k ready ≡ true
    → Placed k deps (ready ++ done)
unfolding Placed
Placed-taken done [] k deps w h = absurd (ground arith)
Placed-taken done (y ∷ ready) k deps w h = elim (Bool-cases (str_eq y k)) [
  | inl same ↦ inl (ground (arith, eq_iff y k), within-append deps ready done w)
  | inr other ↦ inr (Placed-taken done ready k deps w (ground arith))
]

left_over-waits :
    (test : List String → Bool) (k : String) (ts : List String) (p : Graph)
    → test ts ≡ false
    → left_over test ((k, ts) ∷ p) ≡ (k, ts) ∷ left_over test p
unfolding left_over
left_over-waits test k ts p waits = rw waits refl

-- The rows that a round leaves, and those that it takes out, are all of them.
round-All :
    (test : List String → Bool) (order : List String) (p : Graph)
    → IsOrder (left_over test p) order
    → ((k : String) (deps : List String)
        → test deps ≡ true
        → contains k (taken test p) ≡ true
        → Placed k deps order)
    → IsOrder p order
unfolding left_over taken
round-All test order [] left out = tt
round-All test order ((k, ts) ∷ p) left out = elim (Bool-cases (test ts)) [
  | inl ready ↦ (
    out k ts ready (rw (ready, taken) (ground (arith, eq_refl k))),
    round-All test order p (rw (ready, left_over) at left)
        (λ j deps t h. out j deps t (rw (ready, taken) (ground arith))),
  )
  | inr waits ↦
      let (first, rest) = subst (λ x. IsOrder x order) (left_over-waits test k ts p waits) left in
      (first, round-All test order p rest (λ j deps t h. out j deps t (rw (waits, taken) h)))
]

ended : (a b : List String) → Path Ending (placed a) (placed b) → a ≡ b
ended a b h = ap (λ x. elim x [ placed y ↦ y | _ ↦ a ]) h

pub settle-end :
    (n : ℕ) (p : Graph) (done : List String) → is_nil p ≡ true → settle n p done ≡ placed done
unfolding settle
settle-end zero p done h = rw h refl
settle-end (suc n) p done h = rw h refl

-- A round that goes on.
settle-round :
    (n : ℕ) (p : Graph) (done order : List String)
    → is_nil p ≡ false
    → settle n p done ≡ placed order
    → (m : ℕ) × (n ≡ suc m)
      × (settle m (left_over (λ d. within d done) p) (taken (λ d. within d done) p ++ done)
          ≡ placed order)
unfolding settle
settle-round zero p done order h q = absurd (ground (arith, rw (h, settle) at q))
settle-round (suc n) p done order h q = elim (Bool-cases (is_nil (taken (λ d. within d done) p))) [
  | inl stuck ↦ absurd (ground (arith, rw (h, stuck, settle) at q))
  | inr more ↦ (n, refl, rw (h, more, settle) at q)
]

settle-keeps :
    (n : ℕ) (p : Graph) (done order : List String) (k : String) (deps : List String)
    → settle n p done ≡ placed order
    → Placed k deps done
    → Placed k deps order
settle-keeps zero p done order k deps h q = elim (Bool-cases (is_nil p)) [
  | inl all ↦ subst (Placed k deps) (ended done order (sym (settle-end zero p done all) ∙ h)) q
  | inr some_left ↦
      let (m, e, _) = settle-round zero p done order some_left h in absurd (omega (arith, e))
]
settle-keeps (suc n) p done order k deps h q = elim (Bool-cases (is_nil p)) [
  | inl all ↦ subst (Placed k deps) (ended done order (sym (settle-end (suc n) p done all) ∙ h)) q
  | inr some_left ↦
      let (m, e, h') = settle-round (suc n) p done order some_left h in
      let same : m ≡ n = omega (arith, e) in
      settle-keeps n (left_over (λ d. within d done) p) (taken (λ d. within d done) p ++ done) order
        k deps
        (ap
            (λ x.
              settle x (left_over (λ d. within d done) p) (taken (λ d. within d done) p ++ done))
            (sym same)
          ∙ h')
        (Placed-append k deps (taken (λ d. within d done) p) done q)
]

pub settle-IsOrder :
    (n : ℕ) (p : Graph) (done order : List String)
    → settle n p done ≡ placed order
    → IsOrder p order
settle-IsOrder n [] done order h = tt
settle-IsOrder zero (row ∷ p) done order h =
    let (m, e, _) = settle-round zero (row ∷ p) done order refl h in absurd (omega (arith, e))
settle-IsOrder (suc n) (row ∷ p) done order h =
    let (m, e, h') = settle-round (suc n) (row ∷ p) done order refl h in
    let same : m ≡ n = omega (arith, e) in
    let ready = taken (λ d. within d done) (row ∷ p) in
    let rest = left_over (λ d. within d done) (row ∷ p) in
    let next : settle n rest (ready ++ done) ≡ placed order =
      ap (λ x. settle x rest (ready ++ done)) (sym same) ∙ h' in
    round-All (λ d. within d done) order (row ∷ p)
      (settle-IsOrder n rest (ready ++ done) order next)
      (λ k deps w c.
        settle-keeps n rest (ready ++ done) order k deps next (Placed-taken done ready k deps w c))
