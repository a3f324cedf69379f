-- ===== src/Lease/Renewal.antt =====
-- Renewal against the reaper (leases.py, `renew_lease` and `expire_lease`).
use bit_cadence.Prelude.{
  Result-cases, ℕ, ◌+◌, ◌≡◌, ◌≢◌, true, false, some, arith, eq_refl, lookup, lookup-insert,
  Option-cases, inl, inr,
}
use bit_cadence.Board.{Job, Db, same_number_iff, is_renewable}
use bit_cadence.Lease.Claims.{Lease, as_claim, is_expired, Proves, store_incarnation}
use bit_cadence.Lease.Operations.{
  Fresh, default_ttl, at_least_one, claim_query, renew_lease, renew_checked, expire_lease,
  same_attempt,
}
use bit_cadence.Lease.Fencing.{claim_query-Proves}

-- the row that a renewal leaves
abbrev pub extended : ℕ → ℕ → Job → Job
extended ttl now j = record j { lease_expires_at = some (now + at_least_one ttl) }

-- A renewal that succeeds was asked for by the holder of the current attempt before it expired and
-- outside a pause, and moves nothing of the job but the end of its lease.
pub renew_lease-Proves :
    (f : Fresh) (ttl now : ℕ) (l : Lease) (db db' : Db)
    → renew_lease f ttl now l db ≡ (true, db')
    → (j : Job) × (lookup l.job_id db.jobs ≡ some j)
      × Proves (store_incarnation f.new_incarnation db).0 j (as_claim l)
      × (is_renewable j.status ≡ true)
      × (is_expired default_ttl now j ≡ false)
      × (db.paused ≡ false)
      × (lookup l.job_id db'.jobs ≡ some (extended ttl now j))
unfolding renew_lease
renew_lease-Proves f ttl now l db db' h = elim (Option-cases (lookup l.job_id db.jobs)) [
  | inl e ↦ absurd (ground arith)
  | inr (j, e) ↦ elim (Result-cases (claim_query f db j (as_claim l))) [
    | inl (d, p) ↦
        let (proof, _, _, _) = claim_query-Proves f db d j (as_claim l) p in
        (
          j,
          e,
          proof,
          ground arith,
          ground arith,
          ground arith,
          ground (
            arith,
            eq_refl l.job_id,
            lookup-insert l.job_id l.job_id (extended ttl now j) d.jobs,
          ),
        )
    | inr (x, p) ↦ absurd (unfold renew_checked in ground arith)
  ]
]

-- A renewal that moves the end of the lease makes a reaper that saw the old end change nothing.
pub renew_lease-defeats_reaper :
    (f : Fresh) (ttl ttl' now now' : ℕ) (l : Lease) (seen : Job) (db db' : Db)
    → renew_lease f ttl now l db ≡ (true, db')
    → seen.id ≡ l.job_id
    → seen.lease_expires_at ≢ some (now + at_least_one ttl)
    → expire_lease ttl' now' seen db' ≡ (false, db')
unfolding expire_lease same_attempt
renew_lease-defeats_reaper f ttl ttl' now now' l seen db db' h same moved =
    let (j, _, _, _, _, _, row) = renew_lease-Proves f ttl now l db db' h in
    let end = same_number_iff (some (now + at_least_one ttl)) seen.lease_expires_at in
    ground (arith, row, end)
