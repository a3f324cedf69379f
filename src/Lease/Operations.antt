-- ===== src/Lease/Operations.antt =====
-- The operations on leases (src/mco/orchestrator/leases.py). Times are in seconds.
use bit_cadence.Prelude.{
  err, ok, ◌>>◌, ℕ, ◌+◌, String, Bool, true, false, ◌&&◌, ◌||◌, not, Option, none, some, ltb,
  str_eq, if◌then◌else◌, lookup, insert,
}
use bit_cadence.Board.{
  Job, Claim, Db, pending, leased, same_text, same_number, is_renewable, is_pending,
}
use bit_cadence.Lease.Claims.{
  Lease, Result, as_claim, lease_of, store_incarnation, is_expired, epoch_number, is_unleased,
  check_claim, incarnation_changed,
}

abbrev pub default_ttl : ℕ
default_ttl = 3600

-- max(1, ttl_seconds)
abbrev pub at_least_one : ℕ → ℕ
at_least_one ttl = if ltb ttl 1 then 1 else ttl

-- The identifiers that an operation may draw: `uuid4().hex`.
pub record Fresh : Type 0 where
  pub new_lease : String
  pub new_incarnation : String

abbrev pub put_job : String → Job → Db → Db
put_job k j db = record db { jobs = insert k j db.jobs }

-- the row that `acquire_lease` writes
unfoldable pub granted : Fresh → String → ℕ → ℕ → String → Job → Job
granted f current ttl now owner j = record j {
  status = leased;
  leased_by = some owner;
  started_at = some now;
  completed_at = none;
  lease_id = some f.new_lease;
  lease_epoch = some (epoch_number j.lease_epoch + 1);
  lease_incarnation = some current;
  lease_expires_at = some (now + at_least_one ttl);
}

unfoldable pub acquire_found : Fresh → ℕ → ℕ → String → String → Db → Option Job → Option Lease × Db
unfolding granted store_incarnation
acquire_found f ttl now k owner db none = (none, db)
acquire_found f ttl now k owner db (some j) =
    if not (is_pending j.status) || db.paused
    then (none, db)
    else (let (current, db') = store_incarnation f.new_incarnation db in
        let j' : Job = granted f current ttl now owner j in (some (lease_of j'), put_job k j' db'))

unfoldable pub acquire_lease : Fresh → ℕ → ℕ → String → String → Db → Option Lease × Db
unfolding acquire_found
acquire_lease f ttl now k owner db =
    if str_eq owner "" then (none, db) else acquire_found f ttl now k owner db (lookup k db.jobs)

-- `_claim_query`: the checks, and the store after them; only a leased row reads the identity
unfoldable pub claim_query : Fresh → Db → Job → Claim → Result Db
unfolding check_claim store_incarnation is_unleased
claim_query f db j c =
    let (current, db') = store_incarnation f.new_incarnation db in
    do check_claim current j c; ok (if is_unleased j then db else db')

-- `except LeaseError: return False`; the identity row stays written
unfoldable pub renew_checked : Fresh → ℕ → ℕ → String → Db → Job → Result Db → Bool × Db
unfolding store_incarnation
renew_checked f ttl now k db j (ok db') =
    (true, put_job k (record j { lease_expires_at = some (now + at_least_one ttl) }) db')
renew_checked f ttl now k db j (err incarnation_changed) =
    (false, (store_incarnation f.new_incarnation db).1)
renew_checked f ttl now k db j (err e) = (false, db)

unfoldable pub renew_found : Fresh → ℕ → ℕ → Lease → Db → Option Job → Bool × Db
unfolding renew_checked is_expired claim_query
renew_found f ttl now l db none = (false, db)
renew_found f ttl now l db (some j) =
    if not (is_renewable j.status) || is_expired default_ttl now j || db.paused
    then (false, db)
    else renew_checked f ttl now l.job_id db j (claim_query f db j (as_claim l))

unfoldable pub renew_lease : Fresh → ℕ → ℕ → Lease → Db → Bool × Db
unfolding renew_found
renew_lease f ttl now l db = renew_found f ttl now l db (lookup l.job_id db.jobs)

-- the observed row is that of the current attempt, unrenewed since
unfoldable pub same_attempt : Job → Job → Bool
same_attempt current seen =
    same_number current.lease_epoch seen.lease_epoch
    && same_text current.lease_id seen.lease_id
    && same_number current.lease_expires_at seen.lease_expires_at
    && same_number current.started_at seen.started_at

unfoldable pub requeued : Job → Job
requeued j = record j {
  status = pending;
  leased_by = none;
  lease_id = none;
  started_at = none;
  lease_expires_at = none;
  lease_epoch = some (epoch_number j.lease_epoch + 1);
}

unfoldable pub expire_found : ℕ → ℕ → Job → Db → Option Job → Bool × Db
unfolding is_expired same_attempt requeued
expire_found ttl now seen db none = (false, db)
expire_found ttl now seen db (some j) =
    if not (is_renewable j.status) || not (is_expired ttl now j)
    then (false, db)
    else if not (same_attempt j seen)
    then (false, db)
    else (true, put_job seen.id (requeued j) db)

unfoldable pub expire_lease : ℕ → ℕ → Job → Db → Bool × Db
unfolding expire_found
expire_lease ttl now seen db = expire_found ttl now seen db (lookup seen.id db.jobs)
