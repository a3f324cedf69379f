-- ===== src/Prelude/Results.antt =====
-- Values or errors: what a call returns that may raise an `E`.
use mathlib.Core.Path.{◌≡◌, refl, ap}
use mathlib.Core.Logic.{◌⊎◌, inl, inr}
use mathlib.Core.Bool.{Bool, true, false, ◌&&◌}
use native.Mathlib.Omega.{arith}

pub data Raises (E A : Type 0) : Type 0 where
  ok : A → Raises E A
  err : E → Raises E A

module _ {E : Type 0} where
  -- `if not test: raise`
  abbrev pub require : Bool → E → Raises E (Unit {0})
  require true reason = ok tt
  require false reason = err reason

  infixl 5 ◌>>=◌ ◌>>◌
  abbrev pub ◌>>=◌ : {A B : Type 0} → Raises E A → (A → Raises E B) → Raises E B
  ok x >>= next = next x
  err reason >>= next = err reason

  abbrev pub ◌>>◌ : {B : Type 0} → Raises E (Unit {0}) → Raises E B → Raises E B
  check >> rest = check >>= λ _. rest

  pub Result-cases :
      {A : Type 0} (r : Raises E A) → ((a : A) × (r ≡ ok a)) ⊎ ((e : E) × (r ≡ err e))
  Result-cases (ok x) = inl (x, refl)
  Result-cases (err reason) = inr (reason, refl)

  abbrev pub is_ok : {A : Type 0} → Raises E A → Bool
  is_ok (ok x) = true
  is_ok (err reason) = false

  -- Checks in a row pass where each of them does.
  pub is_ok-then :
      {B : Type 0} (check : Raises E (Unit {0})) (rest : Raises E B)
      → is_ok (check >> rest) ≡ (is_ok check && is_ok rest)
  is_ok-then (ok _) rest = refl
  is_ok-then (err reason) rest = refl

  pub is_ok-first :
      {B : Type 0} (check : Raises E (Unit {0})) (rest : Raises E B)
      → is_ok (check >> rest) ≡ true
      → is_ok check ≡ true
  is_ok-first (ok _) rest h = refl
  is_ok-first (err reason) rest h = h

  pub is_ok-rest :
      {B : Type 0} (check : Raises E (Unit {0})) (rest : Raises E B)
      → is_ok (check >> rest) ≡ true
      → is_ok rest ≡ true
  is_ok-rest (ok _) rest h = h
  is_ok-rest (err reason) rest h = absurd (ground arith)

  pub is_ok-require : (b : Bool) (reason : E) → is_ok (require b reason) ≡ b
  is_ok-require true reason = refl
  is_ok-require false reason = refl

  -- Where a chain has a result, so has its first call, and the rest has it of that call's.
  pub bind-ok :
      {A B : Type 0} (first : Raises E A) (next : A → Raises E B) (b : B)
      → (first >>= next) ≡ ok b
      → (a : A) × (first ≡ ok a) × (next a ≡ ok b)
  bind-ok (ok a) next b h = (a, refl, h)
  bind-ok (err reason) next b h = absurd (ground arith)

  pub then-ok :
      {B : Type 0} (check : Raises E (Unit {0})) (rest : Raises E B) (b : B)
      → (check >> rest) ≡ ok b
      → rest ≡ ok b
  then-ok (ok _) rest b h = h
  then-ok (err reason) rest b h = absurd (ground arith)

  pub require-ok : (b : Bool) (reason : E) (u : Unit {0}) → require b reason ≡ ok u → b ≡ true
  require-ok true reason u h = refl
  require-ok false reason u h = absurd (ground arith)

  pub ok-injective : {A : Type 0} (a b : A) → Path (Raises E A) (ok a) (ok b) → a ≡ b
  ok-injective a b h = ap (λ x. elim x [ ok y ↦ y | err _ ↦ a ]) h
