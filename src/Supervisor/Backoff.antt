-- ===== src/Supervisor/Backoff.antt =====
-- The delay before a worker is started again, and where computing it raises.
use bit_cadence.Prelude.{
  ℕ, zero, suc, ◌*◌, ◌^◌, ◌≤◌, ◌<◌, ◌≡◌, refl, none, some, arith, ltb, leb, Bool-cases, inl, inr,
  ◌⊎◌,
}
use native.Mathlib.Nat.{pow-suc}
use bit_cadence.Supervisor.Worker.{second, max_backoff, max_float_exponent, backoff_delay}

pow_pos : (n : ℕ) → 1 ≤ 2 ^ n
pow_pos zero = omega arith
pow_pos (suc n) = omega (arith, pow_pos n, pow-suc 2 n)

pow_mono : (m n : ℕ) → m ≤ n → 2 ^ m ≤ 2 ^ n
pow_mono m zero h = let e : m ≡ 0 = omega arith in rw e (omega arith)
pow_mono zero (suc n) h = omega (arith, pow_pos (suc n))
pow_mono (suc m) (suc n) h = omega (arith, pow_mono m n (omega arith), pow-suc 2 n, pow-suc 2 m)

-- Up to an exponent of 1023 there is a delay, between one second and sixty: two to the exponent in
-- seconds, or sixty where that is more. Past it there is none: the conversion to a float raises.
pub backoff_delay_bounds :
    (n : ℕ)
    → ((n ≤ 1023)
        × (d : ℕ) × (backoff_delay n ≡ some d)
        × (second ≤ d)
        × (d ≤ max_backoff)
        × (d ≤ 2 ^ n * second)
        × ((d ≡ max_backoff) ⊎ (d ≡ 2 ^ n * second)))
      ⊎ ((1023 < n) × (backoff_delay n ≡ none))
unfolding backoff_delay
backoff_delay_bounds n = elim (Bool-cases (ltb max_float_exponent n)) [
  | inl high ↦ inr (ground arith, ground arith)
  | inr low ↦ elim (Bool-cases (leb (2 ^ n * second) max_backoff)) [
    | inl short ↦ inl (
      ground arith,
      2 ^ n * second,
      ground arith,
      ground (arith, pow_pos n),
      ground arith,
      omega arith,
      inr refl,
    )
    | inr long ↦
        inl (
          ground arith,
          max_backoff,
          ground arith,
          omega arith,
          omega arith,
          ground arith,
          inl refl,
        )
  ]
]

-- A longer run of failures never shortens the delay.
pub backoff_delay_mono :
    (m n : ℕ) {a b : ℕ} → m ≤ n → backoff_delay m ≡ some a → backoff_delay n ≡ some b → a ≤ b
unfolding backoff_delay
backoff_delay_mono m n h p q = ground (arith, pow_mono m n h)
