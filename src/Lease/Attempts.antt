-- ===== src/Lease/Attempts.antt =====
-- The attempt that was granted can report; every other claim is fenced off.
use bit_cadence.Prelude.{
  Result-cases, err, ok, ℕ, ◌≡◌, ◌≢◌, subst, String, Bool, false, Option, none, some, arith, str_eq,
  eq_refl, lookup, lookup-insert, Option-cases, inl, inr, [], if◌then◌else◌,
}
use bit_cadence.Board.{Job, Claim, Db, Status, pending, Updates, Receipt, is_final_report}
use bit_cadence.Lease.Claims.{Lease, LeaseError, is_unleased, store_incarnation, lease_of}
use bit_cadence.Lease.Operations.{Fresh, acquire_lease, granted}
use bit_cadence.Lease.Update.{fenced_update, answer, Reply, receipt_for}
use bit_cadence.Lease.Fencing.{unprotected, answer-unreplayed, fenced_update-Owns}

-- The row that an acquisition leaves in the store.
pub lookup-acquire_lease :
    (f : Fresh) (ttl now : ℕ) (k owner : String) (db db' : Db) (l : Lease)
    → acquire_lease f ttl now k owner db ≡ (some l, db')
    → (j : Job) × (lookup k db.jobs ≡ some j)
      × (j.status ≡ pending)
      × (db.paused ≡ false)
      × (str_eq owner "" ≡ false)
      × (lookup k db'.jobs
          ≡ some (granted f (store_incarnation f.new_incarnation db).0 ttl now owner j))
      × (l ≡ lease_of (granted f (store_incarnation f.new_incarnation db).0 ttl now owner j))
      × (db'.paused ≡ false)
      × (db'.incarnation ≡ some (store_incarnation f.new_incarnation db).0)
      × (db'.receipts ≡ db.receipts)
unfolding acquire_lease
lookup-acquire_lease f ttl now k owner db db' l h = elim (Option-cases (lookup k db.jobs)) [
  | inl e ↦ absurd (ground arith)
  | inr (j, e) ↦
      let (current, stored) = store_incarnation f.new_incarnation db in
      let kept = lookup-insert k k (granted f current ttl now owner j) stored.jobs in
      (
        j,
        e,
        ground arith,
        ground arith,
        ground arith,
        ground (arith, eq_refl k, kept),
        ground arith,
        ground arith,
        ground arith,
        ground arith,
      )
]

pub unreplayed :
    (f : Fresh) (now : ℕ) (k : String) (c : Claim) (u : Updates) (allowed : Option (Status → Bool))
    (db db' : Db) (r : Reply)
    → receipt_for c u db ≡ none
    → fenced_update f now k c u allowed db ≡ ok (r, db')
    → r.replayed ≡ false
unfolding fenced_update
unreplayed f now k c u allowed db db' r n h =
    let answered : answer f now k c u allowed db (receipt_for c u db) ≡ ok (r, db') =
      unprotected u.protected _ h in
    answer-unreplayed f now k c u allowed db db' r (lookup k db.jobs)
      (unfold answer in subst (λ o. answer f now k c u allowed db o ≡ ok (r, db')) n answered)

-- Once an attempt is granted, a write to the job by a claim with any other lease id is refused, as
-- long as that claim has no receipt to replay.
pub acquire_lease-fences :
    (f g : Fresh) (ttl now now' : ℕ) (k owner : String) (db db' : Db) (l : Lease) (c : Claim)
    (u : Updates) (allowed : Option (Status → Bool))
    → acquire_lease f ttl now k owner db ≡ (some l, db')
    → c.claim_id ≢ l.lease_id
    → receipt_for c u db' ≡ none
    → (e : LeaseError) × (fenced_update g now' k c u allowed db' ≡ err e)
unfolding granted
acquire_lease-fences f g ttl now now' k owner db db' l c u allowed h other n =
    elim (Result-cases (fenced_update g now' k c u allowed db')) [
      | inl ((r, d), e) ↦
          let (j, _, _, _, _, row, lease, _, _, _) =
            lookup-acquire_lease f ttl now k owner db db' l h in
          let (i, found, owns, _, _) =
            fenced_update-Owns g now' k c u allowed db' d r e
              (unreplayed g now' k c u allowed db' d r n e) in
          let attempt : c.claim_id ≡ i.lease_id =
            owns.proof.attempt (unfold is_unleased in ground arith) in
          absurd (other (ground arith))
      | inr found ↦ found
    ]

-- A report of a status and an output, and of nothing else.
abbrev pub report : Status → Option String → Updates
report s output = record {
  new_status = some s;
  new_output = output;
  new_error = none;
  protected = [];
}

-- the receipt that a report of a status leaves, if the status is final
abbrev pub receipt_of : Claim → Updates → Status → Job → Option Receipt
receipt_of c u s row =
    if is_final_report s then some (record { claim = c; updates = u; job = row }) else none
