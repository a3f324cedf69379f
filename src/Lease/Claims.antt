-- ===== src/Lease/Claims.antt =====
-- Leases, expiry, and the check of a worker's claim (src/mco/orchestrator/leases.py).
use bit_cadence.Prelude.{
  ok, require, ◌>>◌, Raises, ℕ, ◌+◌, String, Bool, false, ◌&&◌, not, Option, none, some, leb, ◌==◌,
  if◌then◌else◌, is_some, get_or, truthy, ◌≡◌, arith,
}
use bit_cadence.Board.{Job, Claim, Db, same_text, same_number, same_text_iff, same_number_iff}

pub data LeaseError : Type 0 where
  stale_attempt not_holder no_lease_presented incarnation_changed : LeaseError
  protected_fields different_result job_not_found terminal_state : LeaseError
  illegal_transition illegal_source expired_or_halted : LeaseError

-- An error rolls the transaction back, so it carries no store.
abbrev pub Result : Type 0 → Type 0
Result A = Raises LeaseError A

pub record Lease : Type 0 where
  pub job_id : String
  pub lease_id : Option String
  pub epoch : Option ℕ
  pub incarnation : Option String
  pub owner : Option String

abbrev pub as_claim : Lease → Claim
as_claim l = record {
  claim_id = l.lease_id;
  claim_epoch = l.epoch;
  claim_incarnation = l.incarnation;
  claim_owner = l.owner;
}

-- `_lease`
abbrev pub lease_of : Job → Lease
lease_of j = record {
  job_id = j.id;
  lease_id = j.lease_id;
  epoch = j.lease_epoch;
  incarnation = j.lease_incarnation;
  owner = j.leased_by;
}

-- The store's identity, made on first use from `fresh`.
unfoldable pub store_incarnation : String → Db → String × Db
store_incarnation fresh db = elim db.incarnation [
  | none ↦ (fresh, record db { incarnation = some fresh })
  | some i ↦ (i, db)
]

unfoldable pub rotate_incarnation : String → Db → String × Db
rotate_incarnation fresh db = (fresh, record db { incarnation = some fresh })

-- when a lease ends: as recorded, or a default life after its start
abbrev pub ends_at : ℕ → Option ℕ → Option ℕ → Option ℕ
ends_at ttl (some e) started = some e
ends_at ttl none (some t) = some (t + ttl)
ends_at ttl none none = none

abbrev pub passed : ℕ → Option ℕ → Bool
passed now none = false
passed now (some t) = leb t now

unfoldable pub is_expired : ℕ → ℕ → Job → Bool
is_expired ttl now j = passed now (ends_at ttl j.lease_expires_at j.started_at)

-- `int(x or 0)`
abbrev pub epoch_number : Option ℕ → ℕ
epoch_number = get_or 0

-- A job whose attempt predates leases: it has no lease id and no epoch.
unfoldable pub is_unleased : Job → Bool
is_unleased j = not (is_some j.lease_id) && (epoch_number j.lease_epoch == 0)

-- the checks of `_claim_query` on a leased row, `current` being the store's incarnation
unfoldable pub check_leased : String → Job → Claim → Result (Unit {0})
check_leased current j c = do
  require (truthy c.claim_id) no_lease_presented
  require (same_text c.claim_id j.lease_id) stale_attempt
  require (same_number c.claim_epoch j.lease_epoch) stale_attempt
  require (same_text c.claim_incarnation j.lease_incarnation) stale_attempt
  require (same_text c.claim_incarnation (some current)) incarnation_changed

-- the checks of `_claim_query`
unfoldable pub check_claim : String → Job → Claim → Result (Unit {0})
unfolding is_unleased check_leased
check_claim current j c = do
  require (not (truthy j.lease_id && truthy c.claim_id && not (same_text c.claim_id j.lease_id)))
      stale_attempt
  require (truthy c.claim_owner && same_text c.claim_owner j.leased_by) not_holder
  (if is_unleased j then ok tt else check_leased current j c)

-- What a claim that passes shows of the row. Only a row with no lease needs no proof but the owner.
pub record Proves (current : String) (j : Job) (c : Claim) : Type 0 where
  pub holder : c.claim_owner ≡ j.leased_by
  pub attempt : is_unleased j ≡ false → c.claim_id ≡ j.lease_id
  pub epoch : is_unleased j ≡ false → c.claim_epoch ≡ j.lease_epoch
  pub identity : is_unleased j ≡ false → c.claim_incarnation ≡ j.lease_incarnation
  pub store : is_unleased j ≡ false → c.claim_incarnation ≡ some current

pub check_claim-Proves :
    (current : String) (j : Job) (c : Claim) → check_claim current j c ≡ ok tt → Proves current j c
unfolding check_claim check_leased
check_claim-Proves current j c h = ground (
  arith,
  same_text_iff c.claim_owner j.leased_by,
  same_text_iff c.claim_id j.lease_id,
  same_number_iff c.claim_epoch j.lease_epoch,
  same_text_iff c.claim_incarnation j.lease_incarnation,
  same_text_iff c.claim_incarnation (some current),
)
