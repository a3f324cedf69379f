-- ===== src/Authority.antt =====
-- The authority of a score: signed grants, what they allow, and the service that issues them
-- (src/mco/orchestrator/score_authority.py).
use bit_cadence.Prelude.{
  ℕ, ◌≤◌, ◌≡◌, String, Bool, true, false, Option, none, some, List, [], ◌∷◌, ◌++◌, length, contains,
  str_eq, not, ◌&&◌, ◌||◌, leb, ltb, is_some, is_blank, filter_by, any_by, if◌then◌else◌, ℤ, pos,
  leb_ℤ, Raises, ok, err, require, ◌>>=◌, ◌>>◌, all_by,
}
pub mod Checks
pub mod Uses
pub mod Issues
mod Examples

-- What `datetime.fromisoformat` makes of a text: no time, one without a zone, or an instant.
pub data Stamp : Type 0 where
  unreadable : Stamp
  naive : Stamp
  at : ℕ → Stamp

-- The fields that a signature covers.
pub record Body : Type 0 where
  pub org_id : String
  pub run_id : String
  pub digest : String
  pub actions : List String
  pub resources : List String
  pub env : String
  pub not_before : String
  pub expires_at : String
  pub budget_cents : ℤ
  pub human_principal : String

pub record Grant : Type 0 where
  pub body : Body
  pub signature : String

-- Python's own: `fromisoformat`, `hmac.new(key, canonical json).hexdigest()`, and the digest of the JSON of
-- the fields and the signature. A key is its bytes. `stored` is the database's: the text that it gives back for
-- the text of a time (TIMESTAMPTZ columns give an equal time, in a spelling of their own).
pub record Outside : Type 0 where
  pub read : String → Stamp
  pub hmac : List ℕ → Body → String
  pub digest_of : Grant → String
  pub stored : String → String

-- the codes of `AuthorityError`
pub data Fault : Type 0 where
  key_too_short : Fault
  signature_invalid : Fault
  key_required : Fault
  complete_scope_required : Fault
  not_bound_to_org_and_digest : Fault
  action_not_authorized : Fault
  not_bound_to_run : Fault
  resource_not_authorized : Fault
  environment_not_authorized : Fault
  not_approved_by_owner : Fault
  malformed_budget : Fault
  budget_exceeded : Fault
  malformed_expiry : Fault
  malformed_not_before : Fault
  not_yet_valid : Fault
  expired : Fault
  malformed_field : Fault
  malformed_time_window : Fault
  different_authority : Fault
  grant_not_found : Fault
  stale_receipt : Fault
  receipt_not_bound : Fault

-- `if not test: raise` in a row: the first that fails
pub require_all : List (Bool × Fault) → Raises Fault (Unit {0})
require_all [] = ok tt
require_all ((test, fault) ∷ rest) = require test fault >> require_all rest

-- x is None or test(x)
abbrev pub unless_none : {A : Type 0} → Option A → (A → Bool) → Bool
unless_none none test = true
unless_none (some x) test = test x

abbrev pub is_long : List ℕ → Bool
is_long key = leb 32 (length key)

abbrev pub is_aware : Stamp → Bool
is_aware (at t) = true
is_aware _ = false

abbrev pub starts_by : Stamp → ℕ → Bool
starts_by (at t) now = leb t now
starts_by _ now = false

abbrev pub ends_after : Stamp → ℕ → Bool
ends_after (at t) now = ltb now t
ends_after _ now = false

-- What a caller asks a grant for.
pub record Scope : Type 0 where
  pub org_id : String
  pub digest : String
  pub action : String
  pub run_id : Option String
  pub resource : Option String
  pub environment : Option String
  pub cost_cents : Option ℤ
  pub owner_principal : Option String
  pub verification_key : Option (List ℕ)
  pub allow_legacy_unverified : Bool

abbrev pub is_complete : Scope → Bool
is_complete s =
    is_some s.run_id
    && is_some s.resource
    && is_some s.environment
    && is_some s.cost_cents
    && is_some s.owner_principal

module _ (o : Outside) where
  pub sign_grant : Body → List ℕ → Raises Fault Grant
  sign_grant body key =
      require (is_long key) key_too_short
      >> ok (record { body = body; signature = o.hmac key body })

  pub verify_grant_signature : Grant → List ℕ → Raises Fault (Unit {0})
  verify_grant_signature g key =
      require (is_long key) key_too_short
      >> require (str_eq g.signature (o.hmac key g.body)) signature_invalid

  pub verify_with : Grant → Option (List ℕ) → Raises Fault (Unit {0})
  verify_with g none = ok tt
  verify_with g (some key) = verify_grant_signature g key

  abbrev pub scope_checks : Grant → Scope → ℕ → List (Bool × Fault)
  scope_checks g s now =
      (s.allow_legacy_unverified || is_some s.verification_key, key_required)
      ∷ (s.allow_legacy_unverified || is_complete s, complete_scope_required)
      ∷ (
        str_eq g.body.org_id s.org_id && str_eq g.body.digest s.digest,
        not_bound_to_org_and_digest,
      )
      ∷ (contains s.action g.body.actions, action_not_authorized)
      ∷ (unless_none s.run_id (str_eq g.body.run_id), not_bound_to_run)
      ∷ (unless_none s.resource (λ r. contains r g.body.resources), resource_not_authorized)
      ∷ (unless_none s.environment (str_eq g.body.env), environment_not_authorized)
      ∷ (unless_none s.owner_principal (str_eq g.body.human_principal), not_approved_by_owner)
      ∷ (unless_none s.cost_cents (leb_ℤ (pos 0)), malformed_budget)
      ∷ (unless_none s.cost_cents (λ c. leb_ℤ c g.body.budget_cents), budget_exceeded)
      ∷ (is_aware (o.read g.body.expires_at), malformed_expiry)
      ∷ (is_aware (o.read g.body.not_before), malformed_not_before)
      ∷ (starts_by (o.read g.body.not_before) now, not_yet_valid)
      ∷ (ends_after (o.read g.body.expires_at) now, expired)
      ∷ []

  pub require_grant : Grant → Scope → ℕ → Raises Fault String
  require_grant g s now =
      require_all (scope_checks g s now) >> verify_with g s.verification_key >> ok (o.digest_of g)

abbrev pub is_filled : List String → Bool
is_filled [] = false
is_filled (v ∷ vs) = all_by (λ x. not (is_blank x)) (v ∷ vs)

abbrev pub is_window : Stamp → Stamp → Bool
is_window (at t) (at u) = ltb t u
is_window _ _ = false

-- A receipt that an attempt shows for its grant.
pub record Receipt : Type 0 where
  pub org_id : String
  pub digest : String
  pub grant_identity : String

module _ (o : Outside) where
  pub require_receipt : Receipt → Grant → Scope → ℕ → Raises Fault (Unit {0})
  require_receipt r g s now = require_grant o g s now >>= λ expected.
      require (str_eq r.org_id s.org_id && str_eq r.digest s.digest) stale_receipt
      >> require (str_eq r.grant_identity expected) receipt_not_bound

  abbrev pub issue_checks : Body → List (Bool × Fault)
  issue_checks b =
      (not (is_blank b.org_id), malformed_field)
      ∷ (not (is_blank b.run_id), malformed_field)
      ∷ (not (is_blank b.digest), malformed_field)
      ∷ (not (is_blank b.env), malformed_field)
      ∷ (not (is_blank b.human_principal), malformed_field)
      ∷ (is_filled b.actions, malformed_field)
      ∷ (is_filled b.resources, malformed_field)
      ∷ (leb_ℤ (pos 0) b.budget_cents, malformed_budget)
      ∷ (is_window (o.read b.not_before) (o.read b.expires_at), malformed_time_window)
      ∷ []

-- the rows of `score_grants` for an organisation, a run and a digest
abbrev pub is_for : String → String → String → Grant → Bool
is_for org run digest g =
    str_eq g.body.org_id org && str_eq g.body.run_id run && str_eq g.body.digest digest

abbrev pub rows_for : String → String → String → List Grant → List Grant
rows_for org run digest = filter_by (is_for org run digest)

module _ (o : Outside) where
  -- the row that an insert of the grant makes
  abbrev pub as_stored : Grant → Grant
  as_stored g = record g {
    body = record g.body {
      not_before = o.stored g.body.not_before;
      expires_at = o.stored g.body.expires_at;
    };
  }

  -- The row that stands for the grant, or a new one at the end.
  pub keep : Grant → List Grant → List Grant → Raises Fault (Grant × List Grant)
  keep signed [] rows = ok (as_stored signed, rows ++ (as_stored signed ∷ []))
  keep signed (row ∷ more) rows =
      require (str_eq row.signature signed.signature) different_authority >> ok (row, rows)

-- load: the one row
pub only : List Grant → Raises Fault Grant
only (row ∷ []) = ok row
only _ = err grant_not_found

-- The caller names the run, the resource, the environment, the cost and the owner.
abbrev pub full_scope :
    List ℕ → String → String → String → String → String → String → ℤ → String → Scope
full_scope key org run digest action resource environment cost owner = record {
  org_id = org;
  digest = digest;
  action = action;
  run_id = some run;
  resource = some resource;
  environment = some environment;
  cost_cents = some cost;
  owner_principal = some owner;
  verification_key = some key;
  allow_legacy_unverified = false;
}

module _ (o : Outside) (key : List ℕ) where
  pub issue : Body → List Grant → Raises Fault (Grant × List Grant)
  issue b rows =
      require_all (issue_checks o b)
      >> (sign_grant o b key >>= λ signed.
          verify_grant_signature o signed key
          >> keep o signed (rows_for b.org_id b.run_id b.digest rows) rows)

  pub load : String → String → String → List Grant → Raises Fault Grant
  load org run digest rows =
      only (rows_for org run digest rows) >>= λ row. verify_grant_signature o row key >> ok row

  pub require_issued :
      String
      → String
      → String
      → String
      → String
      → String
      → ℤ
      → String
      → ℕ
      → List Grant
      → Raises Fault (Grant × String)
  require_issued org run digest action resource environment cost owner now rows =
      load org run digest rows >>= λ g.
      require_grant o g (full_scope key org run digest action resource environment cost owner) now
      >>= λ id. ok (g, id)
