-- ===== src/Lease/Halts.antt =====
-- What a pause keeps from happening until it is resumed (leases.py, `set_paused`).
use bit_cadence.Prelude.{
  err, ℕ, ◌≡◌, refl, sym, subst, String, Bool, true, false, not, Option, none, some, List, [], ◌∷◌,
  arith, any_by, lookup, Option-cases, inl, inr,
}
use bit_cadence.Board.{Job, Claim, Updates, Status, Db, is_renewable}
use bit_cadence.Lease.Claims.{Lease, LeaseError, rotate_incarnation}
use bit_cadence.Lease.Operations.{Fresh, acquire_lease, renew_lease, expire_lease}
use bit_cadence.Lease.Update.{fenced_update, receipt_for, set_paused}
use bit_cadence.Lease.Pause.{
  halted-lookup, acquire_lease-paused, renew_lease-paused, fenced_update-paused,
}
use bit_cadence.Lease.Epochs.{
  Action, acquires, renews, expires, updates, pauses, rotates, act, history, written,
}
use bit_cadence.Lease.Receipts.{fenced_update-receipted}

-- The store is paused, and no job is leased or in progress.
pub record IsHalted (db : Db) : Type 0 where
  pub paused : db.paused ≡ true
  pub idle : (k : String) (j : Job) → lookup k db.jobs ≡ some j → is_renewable j.status ≡ false

set_paused-IsHalted : (db : Db) → IsHalted (set_paused true db).1
unfolding set_paused
set_paused-IsHalted db = record { paused = refl; idle = λ k j e. halted-lookup k j db.jobs e }

expire_lease-halted :
    (ttl now : ℕ) (seen : Job) (db : Db) → IsHalted db → (expire_lease ttl now seen db).1 ≡ db
unfolding expire_lease
expire_lease-halted ttl now seen db h = elim (Option-cases (lookup seen.id db.jobs)) [
  | inl gone ↦ ground arith
  | inr (j, e) ↦ let idle = h.idle seen.id j e in ground arith
]

fenced_update-halted :
    (f : Fresh) (now : ℕ) (k : String) (c : Claim) (u : Updates) (allowed : Option (Status → Bool))
    (db : Db)
    → IsHalted db
    → written db (fenced_update f now k c u allowed db) ≡ db
fenced_update-halted f now k c u allowed db h = elim (Option-cases (receipt_for c u db)) [
  | inr (q, e) ↦ fenced_update-receipted f now k c u allowed db q e
  | inl n ↦ let (x, e) = fenced_update-paused f now k c u allowed db h.paused n in rw e refl
]

-- the end of the pause
unfoldable pub resumes : Action → Bool
resumes (pauses p) = not p
resumes _ = false

act-IsHalted : (a : Action) (db : Db) → resumes a ≡ false → IsHalted db → IsHalted (act a db)
unfolding act resumes rotate_incarnation
act-IsHalted (acquires f ttl now k owner) db r h =
    subst (λ x. IsHalted x.1) (sym (acquire_lease-paused f ttl now k owner db h.paused)) h
act-IsHalted (renews f ttl now l) db r h =
    subst (λ x. IsHalted x.1) (sym (renew_lease-paused f ttl now l db h.paused)) h
act-IsHalted (expires ttl now seen) db r h =
    subst IsHalted (sym (expire_lease-halted ttl now seen db h)) h
act-IsHalted (updates f now k c u allowed) db r h =
    subst IsHalted (sym (fenced_update-halted f now k c u allowed db h)) h
act-IsHalted (pauses true) db r h = set_paused-IsHalted db
act-IsHalted (pauses false) db r h = absurd (ground (arith, r))
act-IsHalted (rotates identity) db r h = record { paused = h.paused; idle = h.idle }

history-IsHalted :
    (db : Db) (actions : List Action)
    → any_by resumes actions ≡ false
    → IsHalted db
    → IsHalted (history db actions)
unfolding history
history-IsHalted db [] r h = h
history-IsHalted db (a ∷ actions) r h =
    history-IsHalted (act a db) actions (ground (arith, r))
      (act-IsHalted a db (ground (arith, r)) h)

-- After a pause, and whatever acquisitions, renewals, expiries, worker writes, further pauses and identity
-- rotations are then tried, as long as none of them is a resume: no job is leased or in progress,
-- nothing can be acquired, no lease can be renewed, and a worker write that is not the replay of
-- a receipt is refused.
pub set_paused-halts :
    (db : Db) (actions : List Action) (f : Fresh) (ttl now : ℕ) (k owner : String) (j : Job)
    (l : Lease) (c : Claim) (u : Updates) (allowed : Option (Status → Bool))
    → any_by resumes actions ≡ false
    → lookup k (history (set_paused true db).1 actions).jobs ≡ some j
    → receipt_for c u (history (set_paused true db).1 actions) ≡ none
    → let later = history (set_paused true db).1 actions in
      (is_renewable j.status ≡ false)
      × (acquire_lease f ttl now k owner later ≡ (none, later))
      × (renew_lease f ttl now l later ≡ (false, later))
      × ((e : LeaseError) × (fenced_update f now k c u allowed later ≡ err e))
set_paused-halts db actions f ttl now k owner j l c u allowed r e n =
    let later = history (set_paused true db).1 actions in
    let h = history-IsHalted (set_paused true db).1 actions r (set_paused-IsHalted db) in
    (
      h.idle k j e,
      acquire_lease-paused f ttl now k owner later h.paused,
      renew_lease-paused f ttl now l later h.paused,
      fenced_update-paused f now k c u allowed later h.paused n,
    )
