-- ===== src/Lease/Pause.antt =====
-- The kill switch (leases.py, `set_paused`).
use bit_cadence.Prelude.{
  Result-cases, err, ℕ, ◌≡◌, refl, String, Bool, true, false, Option, none, some, [], ◌∷◌, arith,
  lookup, Dict, Option-cases, inl, inr,
}
use bit_cadence.Board.{Job, Claim, Updates, Status, Db, is_renewable}
use bit_cadence.Lease.Claims.{Lease, LeaseError}
use bit_cadence.Lease.Operations.{Fresh, acquire_lease, renew_lease}
use bit_cadence.Lease.Update.{fenced_update, receipt_for, halt, halt_all}
use bit_cadence.Lease.Fencing.{fenced_update-Owns}
use bit_cadence.Lease.Attempts.{unreplayed}

unfoldable pub halted_row : Option Job → Option Job
halted_row none = none
halted_row (some j) = some (halt j)

pub lookup-halt_all : (k : String) (d : Dict Job) → lookup k (halt_all d) ≡ halted_row (lookup k d)
unfolding lookup halt_all halted_row
lookup-halt_all k [] = refl
lookup-halt_all k ((i, j) ∷ d) = ground (arith, lookup-halt_all k d)

pub halt-is_renewable : (j : Job) → is_renewable (halt j).status ≡ false
unfolding halt
halt-is_renewable j = ground arith

pub halted-lookup :
    (k : String) (j : Job) (d : Dict Job)
    → lookup k (halt_all d) ≡ some j
    → is_renewable j.status ≡ false
unfolding halted_row
halted-lookup k j d e = elim (Option-cases (lookup k d)) [
  | inl n ↦ absurd (ground (arith, lookup-halt_all k d))
  | inr (i, s) ↦ ground (arith, lookup-halt_all k d, halt-is_renewable i)
]

pub acquire_lease-paused :
    (f : Fresh) (ttl now : ℕ) (k owner : String) (db : Db)
    → db.paused ≡ true
    → acquire_lease f ttl now k owner db ≡ (none, db)
unfolding acquire_lease
acquire_lease-paused f ttl now k owner db p = elim (Option-cases (lookup k db.jobs)) [
  | inl n ↦ ground arith
  | inr (i, s) ↦ ground arith
]

pub renew_lease-paused :
    (f : Fresh) (ttl now : ℕ) (l : Lease) (db : Db)
    → db.paused ≡ true
    → renew_lease f ttl now l db ≡ (false, db)
unfolding renew_lease
renew_lease-paused f ttl now l db p = elim (Option-cases (lookup l.job_id db.jobs)) [
  | inl n ↦ ground arith
  | inr (i, s) ↦ ground arith
]

pub fenced_update-paused :
    (f : Fresh) (now : ℕ) (k : String) (c : Claim) (u : Updates) (allowed : Option (Status → Bool))
    (db : Db)
    → db.paused ≡ true
    → receipt_for c u db ≡ none
    → (e : LeaseError) × (fenced_update f now k c u allowed db ≡ err e)
fenced_update-paused f now k c u allowed db p n =
    elim (Result-cases (fenced_update f now k c u allowed db)) [
      | inl ((r, d), e) ↦
          let (_, _, owns, _, _) =
            fenced_update-Owns f now k c u allowed db d r e
              (unreplayed f now k c u allowed db d r n e) in
          absurd (ground (arith, owns.running))
      | inr refused ↦ refused
    ]
