-- ===== src/Lease/Epochs.antt =====
-- What no history of lease operations undoes (leases.py).
use bit_cadence.Prelude.{
  Result-cases, err, ok, ℕ, ◌≤◌, ◌≡◌, refl, String, Bool, true, false, Option, none, some, List, [],
  ◌∷◌, arith, str_eq, eq_iff, lookup, insert, lookup-insert, Dict, Option-cases, Bool-cases, inl,
  inr, ◌⊎◌,
}
use bit_cadence.Board.{Job, Claim, Updates, Receipt, Status, Db, is_terminal}
use bit_cadence.Lease.Claims.{
  Lease, Result, as_claim, epoch_number, store_incarnation, rotate_incarnation,
}
use bit_cadence.Lease.Operations.{
  Fresh, acquire_lease, granted, renew_lease, renew_checked, expire_lease, requeued, claim_query,
}
use bit_cadence.Lease.Update.{
  fenced_update, update_found, answer, replay, receipt_for, halt, set_paused, Reply, apply_updates,
  record_write, is_nil,
}
use bit_cadence.Lease.Fencing.{claim_query-Proves}
use bit_cadence.Lease.Renewal.{extended}
use bit_cadence.Lease.Pause.{lookup-halt_all, halted_row}

-- The epoch does not fall, and a terminal status stays.
pub record Grows (i j : Job) : Type 0 where
  pub epoch : epoch_number i.lease_epoch ≤ epoch_number j.lease_epoch
  pub terminal : is_terminal i.status ≡ true → j.status ≡ i.status

-- Every job of the one table is in the other, grown.
abbrev pub AllGrow : Dict Job → Dict Job → Type 0
AllGrow d d' =
    (k : String) (i : Job) → lookup k d ≡ some i → (j : Job) × (lookup k d' ≡ some j) × Grows i j

Grows-refl : (i : Job) → Grows i i
Grows-refl i = record { epoch = omega arith; terminal = λ t. refl }

Grows-trans : (i j l : Job) → Grows i j → Grows j l → Grows i l
Grows-trans i j l g h = record { epoch = omega arith; terminal = λ t. ground arith }

AllGrow-refl : (d : Dict Job) → AllGrow d d
AllGrow-refl d k i e = (i, e, Grows-refl i)

AllGrow-insert :
    (d : Dict Job) (k : String) (i j : Job)
    → lookup k d ≡ some i
    → Grows i j
    → AllGrow d (insert k j d)
AllGrow-insert d k i j e g k' i' e' = elim (Bool-cases (str_eq k k')) [
  | inl same ↦ (j, ground (arith, lookup-insert k k' j d), ground (arith, eq_iff k k'))
  | inr other ↦ (i', ground (arith, lookup-insert k k' j d), Grows-refl i')
]

-- A table is as it was, or one row of it has grown.
abbrev Writes : String → Job → Job → Dict Job → Dict Job → Type 0
Writes k i j d d' = (d' ≡ d) ⊎ ((d' ≡ insert k j d) × Grows i j)

Writes-AllGrow :
    (k : String) (i j : Job) (d d' : Dict Job)
    → lookup k d ≡ some i
    → Writes k i j d d'
    → AllGrow d d'
Writes-AllGrow k i j d d' e (inl same) = rw same (AllGrow-refl d)
Writes-AllGrow k i j d d' e (inr (wrote, g)) = rw wrote (AllGrow-insert d k i j e g)

acquire_lease-AllGrow :
    (f : Fresh) (ttl now : ℕ) (k owner : String) (db : Db)
    → AllGrow db.jobs (acquire_lease f ttl now k owner db).1.jobs
unfolding acquire_lease
acquire_lease-AllGrow f ttl now k owner db = elim (Option-cases (lookup k db.jobs)) [
  | inl n ↦
      let same : (acquire_lease f ttl now k owner db).1.jobs ≡ db.jobs = ground arith in
      rw same (AllGrow-refl db.jobs)
  | inr (i, e) ↦
      Writes-AllGrow k i (granted f (store_incarnation f.new_incarnation db).0 ttl now owner i)
        db.jobs _ e (ground arith)
]

expire_lease-AllGrow :
    (ttl now : ℕ) (seen : Job) (db : Db) → AllGrow db.jobs (expire_lease ttl now seen db).1.jobs
unfolding expire_lease
expire_lease-AllGrow ttl now seen db = elim (Option-cases (lookup seen.id db.jobs)) [
  | inl n ↦
      let same : (expire_lease ttl now seen db).1.jobs ≡ db.jobs = ground arith in
      rw same (AllGrow-refl db.jobs)
  | inr (i, e) ↦ Writes-AllGrow seen.id i (requeued i) db.jobs _ e (ground arith)
]

renew_lease-AllGrow :
    (f : Fresh) (ttl now : ℕ) (l : Lease) (db : Db)
    → AllGrow db.jobs (renew_lease f ttl now l db).1.jobs
unfolding renew_lease
renew_lease-AllGrow f ttl now l db = elim (Option-cases (lookup l.job_id db.jobs)) [
  | inl n ↦
      let same : (renew_lease f ttl now l db).1.jobs ≡ db.jobs = ground arith in
      rw same (AllGrow-refl db.jobs)
  | inr (i, e) ↦
      Writes-AllGrow l.job_id i (extended ttl now i) db.jobs _ e
        (elim (Result-cases (claim_query f db i (as_claim l))) [
          | inl (d, p) ↦
              let (_, jobs, _, _) = claim_query-Proves f db d i (as_claim l) p in ground arith
          | inr (x, p) ↦ unfold renew_checked in ground arith
        ])
]

-- the store after a write that may be refused
abbrev pub written : Db → Result (Reply × Db) → Db
written db (ok (r, d)) = d
written db (err e) = db

update_found-AllGrow :
    (f : Fresh) (now : ℕ) (k : String) (c : Claim) (u : Updates) (allowed : Option (Status → Bool))
    (db : Db) (m : Option Job)
    → lookup k db.jobs ≡ m
    → AllGrow db.jobs (written db (update_found f now k c u allowed db m)).jobs
unfolding update_found record_write
update_found-AllGrow f now k c u allowed db none e = AllGrow-refl db.jobs
update_found-AllGrow f now k c u allowed db (some i) e =
    Writes-AllGrow k i (apply_updates now u i) db.jobs _ e
      (elim (Result-cases (claim_query f db i c)) [
        | inl (d, p) ↦ let (_, jobs, _, _) = claim_query-Proves f db d i c p in ground arith
        | inr (x, p) ↦ ground arith
      ])

answer-AllGrow :
    (f : Fresh) (now : ℕ) (k : String) (c : Claim) (u : Updates) (allowed : Option (Status → Bool))
    (db : Db) (o : Option Receipt)
    → AllGrow db.jobs (written db (answer f now k c u allowed db o)).jobs
unfolding answer
answer-AllGrow f now k c u allowed db none =
    update_found-AllGrow f now k c u allowed db (lookup k db.jobs) refl
answer-AllGrow f now k c u allowed db (some q) =
    let same : (written db (answer f now k c u allowed db (some q))).jobs ≡ db.jobs =
      unfold replay in ground arith in
    rw same (AllGrow-refl db.jobs)

fenced_update-AllGrow :
    (f : Fresh) (now : ℕ) (k : String) (c : Claim) (u : Updates) (allowed : Option (Status → Bool))
    (db : Db)
    → AllGrow db.jobs (written db (fenced_update f now k c u allowed db)).jobs
unfolding fenced_update
fenced_update-AllGrow f now k c u allowed db = elim (Bool-cases (is_nil u.protected)) [
  | inl plain ↦ rw plain (answer-AllGrow f now k c u allowed db (receipt_for c u db))
  | inr barred ↦ rw barred (AllGrow-refl db.jobs)
]

halt-Grows : (i : Job) → Grows i (halt i)
unfolding halt
halt-Grows i = ground arith

set_paused-AllGrow : (p : Bool) (db : Db) → AllGrow db.jobs (set_paused p db).1.jobs
unfolding set_paused halted_row
set_paused-AllGrow true db k i e = (halt i, ground (arith, lookup-halt_all k db.jobs), halt-Grows i)
set_paused-AllGrow false db k i e = (i, e, Grows-refl i)

pub data Action : Type 0 where
  acquires : Fresh → ℕ → ℕ → String → String → Action
  renews : Fresh → ℕ → ℕ → Lease → Action
  expires : ℕ → ℕ → Job → Action
  updates : Fresh → ℕ → String → Claim → Updates → Option (Status → Bool) → Action
  pauses : Bool → Action
  rotates : String → Action

unfoldable pub act : Action → Db → Db
unfolding rotate_incarnation
act (acquires f ttl now k owner) db = (acquire_lease f ttl now k owner db).1
act (renews f ttl now l) db = (renew_lease f ttl now l db).1
act (expires ttl now seen) db = (expire_lease ttl now seen db).1
act (updates f now k c u allowed) db = written db (fenced_update f now k c u allowed db)
act (pauses p) db = (set_paused p db).1
act (rotates identity) db = (rotate_incarnation identity db).1

unfoldable pub history : Db → List Action → Db
history db [] = db
history db (a ∷ actions) = history (act a db) actions

act-AllGrow : (a : Action) (db : Db) → AllGrow db.jobs (act a db).jobs
unfolding act
act-AllGrow (acquires f ttl now k owner) db = acquire_lease-AllGrow f ttl now k owner db
act-AllGrow (renews f ttl now l) db = renew_lease-AllGrow f ttl now l db
act-AllGrow (expires ttl now seen) db = expire_lease-AllGrow ttl now seen db
act-AllGrow (updates f now k c u allowed) db = fenced_update-AllGrow f now k c u allowed db
act-AllGrow (pauses p) db = set_paused-AllGrow p db
act-AllGrow (rotates identity) db = AllGrow-refl db.jobs

history-AllGrow : (db : Db) (actions : List Action) → AllGrow db.jobs (history db actions).jobs
unfolding history
history-AllGrow db [] k i e = (i, e, Grows-refl i)
history-AllGrow db (a ∷ actions) k i e =
    let (j, e', g) = act-AllGrow a db k i e in
    let (l, e'', h) = history-AllGrow (act a db) actions k j e' in (l, e'', Grows-trans i j l g h)

-- Through any history of acquisitions, renewals, expiries, worker writes, pauses, resumes and identity
-- rotations, accepted or refused, every job stays on the board, its epoch never falls, and a
-- terminal status is never left.
pub history-Grows :
    (db : Db) (actions : List Action) (k : String) (i : Job)
    → lookup k db.jobs ≡ some i
    → (j : Job) × (lookup k (history db actions).jobs ≡ some j) × Grows i j
history-Grows db actions k i e = history-AllGrow db actions k i e
