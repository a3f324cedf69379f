-- ===== src/RateLimit/Drain.antt =====
-- How much a bucket lets through (src/mco/ratelimit.py, `_Bucket.consume`).
use bit_cadence.Prelude.{
  ℕ, ◌+◌, ◌-◌, ◌*◌, ◌≤◌, ◌≡◌, refl, subst, Bool, List, [], ◌∷◌, arith, leb, if◌then◌else◌,
  Bool-cases, inl, inr,
}
use native.Mathlib.Nat.{mul-add}
use bit_cadence.RateLimit.{Limits, Bucket, refilled, consume}

pub refilled-bound : (l : Limits) (now : ℕ) (b : Bucket) → refilled l now b ≤ l.capacity
unfolding refilled
refilled-bound l now b = ground arith

refilled-credit :
    (l : Limits) (now : ℕ) (b : Bucket)
    → refilled l now b ≤ b.tokens + (now - b.last_refill) * l.rate
unfolding refilled
refilled-credit l now b = ground arith

abbrev one_if : Bool → ℕ
one_if b = if b then 1 else 0

-- One request: what it takes and what is left come from what was there and what the time has refilled.
consume-pays :
    (l : Limits) (now : ℕ) (b : Bucket)
    → l.token * one_if (consume l now b).0 + (consume l now b).1.tokens
      ≤ b.tokens + (now - b.last_refill) * l.rate
unfolding consume
consume-pays l now b =
    let n = refilled-credit l now b in
    elim (Bool-cases (leb l.token (refilled l now b))) [
      | inl paid ↦ rw paid (ground (arith, n))
      | inr short ↦ rw short (omega (arith, n))
    ]

-- the bucket after requests, each so many ticks after the one before, and how many were allowed
unfoldable pub drain : Limits → ℕ → List ℕ → Bucket → ℕ
unfolding consume
drain l now [] b = 0
drain l now (g ∷ gs) b =
    let (answer, b') = consume l (now + g) b in one_if answer + drain l (now + g) gs b'

abbrev total : List ℕ → ℕ
total [] = 0
total (g ∷ gs) = g + total gs

credit-sum : (g rest rate : ℕ) → (g + rest) * rate ≡ g * rate + rest * rate
credit-sum g rest rate = ground arith

consume-time : (l : Limits) (now : ℕ) (b : Bucket) → (consume l now b).1.last_refill ≡ now
unfolding consume
consume-time l now b = elim (Bool-cases (leb l.token (refilled l now b))) [
  | inl paid ↦ rw paid refl
  | inr short ↦ rw short refl
]

-- the first request, and those after it
drain-next :
    (l : Limits) (now g : ℕ) (gs : List ℕ) (b : Bucket)
    → l.token * drain l now (g ∷ gs) b
      ≡ l.token * one_if (consume l (now + g) b).0
        + l.token * drain l (now + g) gs (consume l (now + g) b).1
unfolding drain
drain-next l now g gs b =
    mul-add l.token (one_if (consume l (now + g) b).0)
      (drain l (now + g) gs (consume l (now + g) b).1)

drain-bound :
    (l : Limits) (now : ℕ) (gs : List ℕ) (b : Bucket)
    → b.last_refill ≡ now
    → l.token * drain l now gs b ≤ b.tokens + total gs * l.rate
drain-bound l now [] b at_now = unfold drain in omega arith
drain-bound l now (g ∷ gs) b at_now =
    let paid = consume-pays l (now + g) b in
    let b' = (consume l (now + g) b).1 in
    let rest = drain-bound l (now + g) gs b' (consume-time l (now + g) b) in
    let gap : (now + g) - b.last_refill ≡ g = omega (arith, at_now) in
    let split = credit-sum g (total gs) l.rate in
    let sum = drain-next l now g gs b in
    let paid' : l.token * one_if (consume l (now + g) b).0 + b'.tokens ≤ b.tokens + g * l.rate =
      subst (λ x. l.token * one_if (consume l (now + g) b).0 + b'.tokens ≤ b.tokens + x * l.rate)
        gap paid in
    omega (arith, sum, paid', rest, split)

-- What one call takes and leaves is within the capacity, whatever the bucket had.
consume-capped :
    (l : Limits) (now : ℕ) (b : Bucket)
    → l.token * one_if (consume l now b).0 + (consume l now b).1.tokens ≤ l.capacity
unfolding consume
consume-capped l now b =
    let n = refilled-bound l now b in
    elim (Bool-cases (leb l.token (refilled l now b))) [
      | inl paid ↦ rw paid (ground (arith, n))
      | inr short ↦ rw short (omega (arith, n))
    ]

-- Of calls of `consume` in a row on one bucket, whatever its state and however long it has been idle: those that
-- pass take no more than the capacity and the refill of the time since the first of them; and no more
-- than the tokens that the bucket had and the refill of the time since it was last refilled.
pub drain-capped :
    (l : Limits) (now g : ℕ) (gs : List ℕ) (b : Bucket)
    → (l.token * drain l now (g ∷ gs) b ≤ l.capacity + total gs * l.rate)
      × (l.token * drain l now (g ∷ gs) b
          ≤ b.tokens + ((now + g) - b.last_refill + total gs) * l.rate)
drain-capped l now g gs b =
    let b' = (consume l (now + g) b).1 in
    let rest = drain-bound l (now + g) gs b' (consume-time l (now + g) b) in
    let sum = drain-next l now g gs b in
    let split = credit-sum ((now + g) - b.last_refill) (total gs) l.rate in
    (
      omega (arith, sum, rest, consume-capped l (now + g) b),
      omega (arith, sum, rest, split, consume-pays l (now + g) b),
    )
