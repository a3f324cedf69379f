-- ===== src/RateLimit.antt =====
-- The limit on requests (src/mco/ratelimit.py). Tokens are counted in parts, so that the refill of a tick of the
-- clock is a whole number of them: with seconds and a limit of n a minute, a token has 60 parts, the
-- capacity is 60 * n and a second refills n. The readings of the clock are arguments.
pub mod Drain
pub mod Buckets
mod Examples
use Prim.Native.Char.{code}
use bit_cadence.Prelude.{
  ℕ, ◌+◌, ◌-◌, ◌*◌, String, Bool, true, false, ◌&&◌, ◌||◌, Option, none, some, List, [], ◌∷◌, leb,
  ltb, ◌==◌, if◌then◌else◌, lookup, insert, Dict, str_eq, strip, codes_of, same_folded,
}

pub record Limits : Type 0 where
  pub capacity : ℕ
  pub rate : ℕ  -- the parts that a tick refills
  pub token : ℕ  -- the parts of a token
  pub minute : ℕ  -- the ticks of a minute

pub record Bucket : Type 0 where
  pub tokens : ℕ
  pub last_refill : ℕ

abbrev pub smaller : ℕ → ℕ → ℕ
smaller a b = if ltb b a then b else a

unfoldable pub refilled : Limits → ℕ → Bucket → ℕ
refilled l now b = smaller l.capacity (b.tokens + (now - b.last_refill) * l.rate)

-- `_Bucket.consume`
unfoldable pub consume : Limits → ℕ → Bucket → Bool × Bucket
unfolding refilled
consume l now b =
    let n = refilled l now b in
    if leb l.token n
    then (true, record { tokens = n - l.token; last_refill = now })
    else (false, record { tokens = n; last_refill = now })

pub data Identity : Type 0 where
  tok ip : String → Identity

unfoldable pub same_identity : Identity → Identity → Bool
same_identity (tok a) (tok b) = str_eq a b
same_identity (ip a) (ip b) = str_eq a b
same_identity _ _ = false

abbrev pub Buckets : Type 0
Buckets = List (Identity × Bucket)

unfoldable pub find_bucket : Identity → Buckets → Option Bucket
unfolding same_identity
find_bucket k [] = none
find_bucket k ((j, b) ∷ d) = if same_identity j k then some b else find_bucket k d

unfoldable pub put_bucket : Identity → Bucket → Buckets → Buckets
unfolding same_identity
put_bucket k b [] = (k, b) ∷ []
put_bucket k b ((j, c) ∷ d) = if same_identity j k then (k, b) ∷ d else (j, c) ∷ put_bucket k b d

pub record Store : Type 0 where
  pub buckets : Buckets
  pub last_gc : ℕ

unfoldable pub drop_stale : ℕ → Buckets → Buckets
drop_stale capacity [] = []
drop_stale capacity ((k, b) ∷ d) =
    let rest = drop_stale capacity d in if leb capacity b.tokens then rest else (k, b) ∷ rest

-- `_maybe_gc`
unfoldable pub maybe_gc : Limits → ℕ → Store → Store
unfolding drop_stale
maybe_gc l now s =
    if ltb (now - s.last_gc) l.minute
    then s
    else record { buckets = drop_stale l.capacity s.buckets; last_gc = now }

-- the bucket of an identity, a new one being put into the store
unfoldable pub bucket_of : Limits → ℕ → Identity → Option Bucket → Store → Bucket × Store
unfolding put_bucket
bucket_of l now k (some b) s = (b, s)
bucket_of l now k none s =
    let b : Bucket = record { tokens = l.capacity; last_refill = now } in
    (b, record s { buckets = put_bucket k b s.buckets })

-- the bucket as it is left, where the store still holds it
unfoldable pub keep_bucket : Identity → Bucket → Option Bucket → Store → Store
unfolding put_bucket
keep_bucket k b none s = s
keep_bucket k b (some old) s = record s { buckets = put_bucket k b s.buckets }

-- `is_allowed`; the clock is read for a new bucket, by the sweep, and by `consume`
unfoldable pub is_allowed : Limits → ℕ → ℕ → ℕ → Identity → Store → Bool × Store
unfolding bucket_of find_bucket maybe_gc consume keep_bucket
is_allowed l made swept used k s =
    let (b, s1) = bucket_of l made k (find_bucket k s.buckets) s in
    let s2 = maybe_gc l swept s1 in
    let (answer, b') = consume l used b in (answer, keep_bucket k b' (find_bucket k s2.buckets) s2)

pub record Request : Type 0 where
  pub path : String
  pub authorization : String  -- "" where it is missing
  pub forwarded_for : String
  pub host : Option String

abbrev drop_chars : ℕ → String → String
drop_chars n String.[] = String.[]
drop_chars n (String.◌∷◌ c s) =
    let rest = drop_chars (n - 1) s in if n == 0 then String.◌∷◌ c s else rest

abbrev take_chars : ℕ → String → String
take_chars n String.[] = String.[]
take_chars n (String.◌∷◌ c s) =
    let rest = take_chars (n - 1) s in if n == 0 then String.[] else String.◌∷◌ c rest

-- what stands before the first comma
abbrev first_part : String → String
first_part String.[] = String.[]
first_part (String.◌∷◌ c s) =
    let rest = first_part s in if code c == 44 then String.[] else String.◌∷◌ c rest

abbrev host_of : Option String → String
host_of none = "unknown"
host_of (some h) = if str_eq h "" then "unknown" else h

abbrev is_bearer : String → Bool
is_bearer a = same_folded (take_chars 7 a) "bearer "

-- where there is no token
unfoldable pub address_of : Request → Identity
address_of r =
    if str_eq r.forwarded_for ""
    then ip (host_of r.host)
    else ip (strip (first_part r.forwarded_for))

-- `_extract_identity`
unfoldable pub extract_identity : Request → Identity
unfolding address_of
extract_identity r =
    let t = strip (drop_chars 7 r.authorization) in
    if is_bearer r.authorization
    then (if str_eq t "" then address_of r else tok t)
    else address_of r

abbrev is_exempt : String → Bool
is_exempt p = str_eq p "/healthz" || str_eq p "/readyz"

pub data Response : Type 0 where
  passed_on too_many_requests : Response

-- `dispatch`
unfoldable pub dispatch : Limits → ℕ → ℕ → ℕ → Request → Store → Response × Store
unfolding is_allowed extract_identity
dispatch l made swept used r s =
    let (answer, s') = is_allowed l made swept used (extract_identity r) s in
    if is_exempt r.path
    then (passed_on, s)
    else if answer
    then (passed_on, s')
    else (too_many_requests, s')
