-- ===== src/Prelude/Lists.antt =====
-- Lists with native lengths, and predicates on every entry.
use Prim.Native.Nat.{ℕ, suc, ◌+◌}
use Prim.Native.String.{String}
use mathlib.Core.Path.{◌≡◌}
use mathlib.Core.Bool.{Bool, true, false}
use mathlib.Core.List.{List, [], ◌∷◌, ◌++◌}
use native.Mathlib.Omega.{arith}
use text.Mathlib.Text.{◌==◌ as str_eq}
use bit_cadence.Prelude.Tests.{if◌then◌else◌}

module _ {ℓ} {A : Type ℓ} where
  abbrev pub length : List A → ℕ
  length [] = 0
  length (x ∷ xs) = suc (length xs)

  abbrev pub All {κ} : (A → Type κ) → List A → Type κ
  All P [] = Unit
  All P (x ∷ xs) = P x × All P xs

  -- `[x for x in xs if keep(x)]`
  abbrev pub filter_by : (A → Bool) → List A → List A
  filter_by keep [] = []
  filter_by keep (x ∷ xs) = if keep x then x ∷ filter_by keep xs else filter_by keep xs

  -- `any(test(x) for x in xs)`
  abbrev pub any_by : (A → Bool) → List A → Bool
  any_by test [] = false
  any_by test (x ∷ xs) = if test x then true else any_by test xs

  -- `all(test(x) for x in xs)`
  abbrev pub all_by : (A → Bool) → List A → Bool
  all_by test [] = true
  all_by test (x ∷ xs) = if test x then all_by test xs else false

  pub length-append : (xs ys : List A) → length (xs ++ ys) ≡ length xs + length ys
  length-append [] ys = omega arith
  length-append (x ∷ xs) ys = omega (arith, length-append xs ys)

-- `key in keys`
abbrev pub contains : String → List String → Bool
contains k = any_by (λ x. str_eq x k)
