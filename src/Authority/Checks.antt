-- ===== src/Authority/Checks.antt =====
-- Checks in a row, and what each step of a use of a grant has found
-- (src/mco/orchestrator/score_authority.py).
use bit_cadence.Prelude.{
  ℕ, arith, ◌≡◌, refl, String, Bool, true, List, [], ◌∷◌, str_eq, eq_iff, Raises, ok, err, require,
  ◌>>◌, then-ok, require-ok, ok-injective, ap,
}
use bit_cadence.Authority.{
  Grant, Outside, Fault, key_too_short, signature_invalid, require_all, is_long, Scope,
  verify_grant_signature, verify_with, scope_checks, require_grant, only,
}

abbrev pub Holds : List (Bool × Fault) → Type 0
Holds [] = Unit {0}
Holds ((test, fault) ∷ rest) = (test ≡ true) × Holds rest

pub first-ok :
    {B : Type 0} (check : Raises Fault (Unit {0})) (rest : Raises Fault B) (b : B)
    → (check >> rest) ≡ ok b
    → check ≡ ok tt
first-ok (ok u) rest b h = refl
first-ok (err f) rest b h = absurd (ground arith)

pub require_all-Holds : (cs : List (Bool × Fault)) → require_all cs ≡ ok tt → Holds cs
unfolding require_all
require_all-Holds [] h = tt
require_all-Holds ((test, fault) ∷ rest) h =
    (require-ok test fault tt (first-ok _ _ tt h), require_all-Holds rest (then-ok _ _ tt h))

pub Holds-require_all : (cs : List (Bool × Fault)) → Holds cs → require_all cs ≡ ok tt
unfolding require_all
Holds-require_all [] h = refl
Holds-require_all ((test, fault) ∷ rest) (here, h) = rw here (Holds-require_all rest h)

module _ (o : Outside) (key : List ℕ) (g : Grant) where
  pub verify_grant_signature-ok :
      verify_grant_signature o g key ≡ ok tt
      → (is_long key ≡ true) × (g.signature ≡ o.hmac key g.body)
  unfolding verify_grant_signature
  verify_grant_signature-ok h =
      let long : require (is_long key) key_too_short ≡ ok tt = first-ok _ _ tt h in
      let same : require (str_eq g.signature (o.hmac key g.body)) signature_invalid ≡ ok tt =
        then-ok _ _ tt h in
      let equal : str_eq g.signature (o.hmac key g.body) ≡ true = require-ok _ _ tt same in
      (require-ok _ _ tt long, ground (arith, eq_iff g.signature (o.hmac key g.body), equal))

  pub ok-verify_grant_signature :
      is_long key ≡ true → g.signature ≡ o.hmac key g.body → verify_grant_signature o g key ≡ ok tt
  unfolding verify_grant_signature
  ok-verify_grant_signature long signed =
      let same : str_eq g.signature (o.hmac key g.body) ≡ true =
        ground (arith, eq_iff g.signature (o.hmac key g.body), signed) in
      rw (long, same) refl

-- A grant passes exactly where each of the checks does, and the signature too.
pub require_grant-ok :
    (o : Outside) (g : Grant) (s : Scope) (now : ℕ) (id : String)
    → require_grant o g s now ≡ ok id
    → Holds (scope_checks o g s now)
      × (verify_with o g s.verification_key ≡ ok tt)
      × (o.digest_of g ≡ id)
unfolding require_grant
require_grant-ok o g s now id h =
    let both : (require_all (scope_checks o g s now) >> verify_with o g s.verification_key)
        ≡ ok tt =
      first-ok _ _ id h in
    (
      require_all-Holds (scope_checks o g s now) (first-ok _ _ tt both),
      then-ok _ _ tt both,
      ok-injective (o.digest_of g) id (then-ok _ _ id h),
    )

pub ok-require_grant :
    (o : Outside) (g : Grant) (s : Scope) (now : ℕ)
    → Holds (scope_checks o g s now)
    → verify_with o g s.verification_key ≡ ok tt
    → require_grant o g s now ≡ ok (o.digest_of g)
unfolding require_grant
ok-require_grant o g s now h v = rw (Holds-require_all (scope_checks o g s now) h) (rw v refl)

-- the one row, and no other
pub only-ok : (rows : List Grant) (g : Grant) → only rows ≡ ok g → rows ≡ g ∷ []
unfolding only
only-ok [] g h = absurd (ground arith)
only-ok (row ∷ []) g h = ap (λ x. x ∷ []) (ok-injective row g h)
only-ok (row ∷ (other ∷ rows)) g h = absurd (ground arith)
