-- ===== src/Audit.antt =====
-- The audit trail of a job: its rows and their writing
-- (src/mco/orchestrator/audit.py).
use Prim.Native.String.{◌++◌ as joined}
use bit_cadence.Prelude.{
  ℕ, zero, suc, ◌+◌, ◌-◌, ◌%◌, ◌<◌, ◌≡◌, String, Bool, true, false, Option, none, some, List, [],
  ◌∷◌, ◌++◌, length, if◌then◌else◌, filter_by, any_by, get_or, is_some, str_eq, ◌==◌, leb, ltb, not,
  ◌&&◌,
}
pub mod Verify
pub mod Chain
pub mod Honest
pub mod Records
pub mod Outbox
pub mod Tamper
pub mod Checkpoints
mod Examples

-- The fields that a hash covers; `detail` is a JSON value.
pub record Content (D : Type 0) : Type 0 where
  pub job_id : String
  pub event : String
  pub actor_id : Option String
  pub actor_role : Option String
  pub detail : D
  pub created_at : String

-- A row of `agent_job_events`; a hash or signature that is absent is the empty text, as the code reads it.
pub record Row (D : Type 0) : Type 0 where
  pub content : Content D
  pub prev_hash : String
  pub hash : String
  pub signature : String
  pub outbox_id : Option String

-- What a checkpoint signs.
pub record Head : Type 0 where
  pub job_id : String
  pub count : ℕ
  pub head_hash : String

pub record Checkpoint : Type 0 where
  pub head : Head
  pub signature : String

-- Python's own: `hashlib.sha256(..).hexdigest()`, `hmac.new(key, ..).hexdigest()`, `json.dumps` of a row's
-- content and of a head, `datetime.fromisoformat` as microseconds, `isoformat` with microseconds and with
-- seconds, and `<=` on texts.
pub record Outside (D : Type 0) : Type 0 where
  pub sha256 : String → String
  pub hmac : String → String → String
  pub canonical : Content D → String
  pub canonical_head : Head → String
  pub instant : String → Option ℕ
  pub micro : ℕ → String
  pub seconds : ℕ → String
  pub text_le : String → String → Bool

pub data Reason : Type 0 where
  prev_mismatch : Reason
  invalid_timestamp : Reason
  content_mismatch : Reason
  signature_mismatch : Reason
  bad_checkpoint : Reason
  deleted_tail : Reason
  head_differs : Reason

pub record Report : Type 0 where
  pub job_id : String
  pub ok : Bool
  pub count : ℕ
  pub broken_at : Option ℕ
  pub reason : Option Reason
  pub signed : Bool

abbrev pub is_hash : Option String → String → Bool
is_hash none h = false
is_hash (some x) h = str_eq x h

-- f"{prev_hash}\n{text}"
abbrev pub material : String → String → String
material prev text = joined prev (joined "\n" text)

module _ {D : Type 0} where
  abbrev pub with_time : Content D → String → Content D
  with_time c s = record c { created_at = s }

  abbrev pub of_job : String → List (Row D) → List (Row D)
  of_job job = filter_by (λ r. str_eq r.content.job_id job)

  -- rows[-1], where there is one
  pub last_or : Option (Row D) → List (Row D) → Option (Row D)
  last_or p [] = p
  last_or p (r ∷ rs) = last_or (some r) rs

  -- (prev or {}).get("hash") or GENESIS_HASH
  abbrev pub hash_of : Option (Row D) → String
  hash_of none = ""
  hash_of (some r) = r.hash

  -- outbox_id and a row of the table has it
  abbrev pub is_recorded : Option String → List (Row D) → Bool
  is_recorded none rows = false
  is_recorded (some id) rows =
      not (str_eq id "") && any_by (λ r. str_eq (get_or "" r.outbox_id) id) rows

  -- rows[n], where there is one
  abbrev pub row_at : ℕ → List (Row D) → Option (Row D)
  row_at n [] = none
  row_at zero (r ∷ rs) = some r
  row_at (suc n) (r ∷ rs) = row_at n rs

module _ {D : Type 0} (o : Outside D) where
  pub canonical_timestamp : String → Option String
  canonical_timestamp s = elim (o.instant s) [ none ↦ none | some t ↦ some (o.micro t) ]

  pub content_of : Row D → Option (Content D)
  content_of r = elim (canonical_timestamp r.content.created_at) [
    | none ↦ none
    | some s ↦ some (with_time r.content s)
  ]

  pub compute_hash : String → Content D → Option String
  compute_hash prev c = elim (canonical_timestamp c.created_at) [
    | none ↦ none
    | some s ↦ some (o.sha256 (material prev (o.canonical (with_time c s))))
  ]

  pub sign : String → Option String → Option String
  sign text none = none
  sign text (some key) = if str_eq key "" then none else some (o.hmac key text)

  -- .order("created_at"), which keeps rows of one time in their order
  pub place : Row D → List (Row D) → List (Row D)
  place r [] = r ∷ []
  place r (q ∷ rs) =
      let rest = place r rs in
      if o.text_le r.content.created_at q.content.created_at then r ∷ q ∷ rs else q ∷ rest

  pub by_time : List (Row D) → List (Row D)
  by_time [] = []
  by_time (r ∷ rs) = place r (by_time rs)

  pub get_events : String → List (Row D) → List (Row D)
  get_events job rows = by_time (of_job job rows)

  pub last_event : String → List (Row D) → Option (Row D)
  last_event job rows = last_or none (get_events job rows)

  -- A new row, and the same with the time moved behind the row before.
  pub sealed : Option String → String → Option String → Content D → Option (Row D)
  sealed key prev outbox c = elim (compute_hash prev c) [
    | none ↦ none
    | some h ↦ some (record {
      content = c;
      prev_hash = prev;
      hash = h;
      signature = get_or "" (sign h key);
      outbox_id = outbox;
    })
  ]

  pub moved : Row D → Content D → Option (Content D)
  moved p c = elim (o.instant p.content.created_at) [
    | none ↦ none
    | some t ↦ some (with_time c (o.micro (t + 1)))
  ]

  pub timely : Option (Row D) → Content D → Option (Content D)
  timely none c = some c
  timely (some p) c = if o.text_le c.created_at p.content.created_at then moved p c else some c

  pub append_event :
      Option String → Option String → Content D → List (Row D) → Option (List (Row D))
  append_event key outbox c rows =
      let prev = last_event c.job_id rows in
      elim (timely prev c) [
        | none ↦ none
        | some c' ↦ elim (sealed key (hash_of prev) outbox c') [
          | none ↦ none
          | some r ↦ some (rows ++ (r ∷ []))
        ]
      ]

  -- The embedded store. `now` is the clock's microseconds; none where a ValueError leaves the function.
  pub record_event :
      Option String → ℕ → Option String → Content D → List (Row D) → Option (Bool × List (Row D))
  record_event key now outbox c rows =
      if str_eq c.job_id ""
      then some (false, rows)
      else if is_recorded outbox rows
      then some (true, rows)
      else elim (append_event key outbox (with_time c (o.micro now)) rows) [
        | none ↦ none
        | some rows' ↦ some (true, rows')
      ]
