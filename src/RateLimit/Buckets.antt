-- ===== src/RateLimit/Buckets.antt =====
-- What the buckets of the limit on requests promise (src/mco/ratelimit.py).
use bit_cadence.Prelude.{
  ℕ, ◌-◌, ◌≤◌, ◌<◌, ◌≡◌, refl, ap, Bool, true, false, ◌&&◌, not, Option, none, some, [], ◌∷◌, arith,
  leb, ltb, if◌then◌else◌, is_some, eq_refl, Bool-cases, Option-cases, inl, inr, All,
}
use bit_cadence.RateLimit.{
  Limits, Bucket, refilled, consume, Identity, tok, ip, same_identity, Buckets, find_bucket,
  put_bucket, Store, drop_stale, maybe_gc, bucket_of, keep_bucket, is_allowed,
}
use bit_cadence.RateLimit.Drain.{refilled-bound}

-- A bucket that has been used is not full.
consume-below :
    (l : Limits) (now : ℕ) (b : Bucket)
    → 1 ≤ l.token
    → l.token ≤ l.capacity
    → (consume l now b).1.tokens < l.capacity
unfolding consume
consume-below l now b one room = elim (Bool-cases (leb l.token (refilled l now b))) [
  | inl paid ↦ rw paid (ground (arith, refilled-bound l now b))
  | inr short ↦ rw short (ground arith)
]

-- no bucket is full
abbrev pub AllUsed : Limits → Buckets → Type 0
AllUsed l = All (λ x. x.1.tokens < l.capacity)

drop_stale-AllUsed : (l : Limits) (d : Buckets) → AllUsed l d → drop_stale l.capacity d ≡ d
unfolding drop_stale
drop_stale-AllUsed l [] u = refl
drop_stale-AllUsed l ((k, b) ∷ d) (v, u) =
    let kept : leb l.capacity b.tokens ≡ false = ground arith in
    rw (kept, drop_stale-AllUsed l d u) refl

same_identity_refl : (k : Identity) → same_identity k k ≡ true
unfolding same_identity
same_identity_refl (tok a) = eq_refl a
same_identity_refl (ip a) = eq_refl a

find_bucket-put_bucket :
    (k : Identity) (b : Bucket) (d : Buckets) → find_bucket k (put_bucket k b d) ≡ some b
unfolding find_bucket put_bucket
find_bucket-put_bucket k b [] = rw (same_identity_refl k) refl
find_bucket-put_bucket k b ((j, c) ∷ d) = elim (Bool-cases (same_identity j k)) [
  | inl same ↦ rw (same, same_identity_refl k) refl
  | inr other ↦ rw (other, find_bucket, other) (find_bucket-put_bucket k b d)
]

put_bucket-put_bucket :
    (k : Identity) (b c : Bucket) (d : Buckets)
    → put_bucket k c (put_bucket k b d) ≡ put_bucket k c d
unfolding put_bucket
put_bucket-put_bucket k b c [] = rw (same_identity_refl k) refl
put_bucket-put_bucket k b c ((j, e) ∷ d) = elim (Bool-cases (same_identity j k)) [
  | inl same ↦ rw (same, same_identity_refl k) refl
  | inr other ↦ rw (other, put_bucket, other) (ap (λ x. (j, e) ∷ x) (put_bucket-put_bucket k b c d))
]

put_bucket-AllUsed :
    (l : Limits) (k : Identity) (b : Bucket) (d : Buckets)
    → b.tokens < l.capacity
    → AllUsed l d
    → AllUsed l (put_bucket k b d)
unfolding put_bucket
put_bucket-AllUsed l k b [] v u = (v, tt)
put_bucket-AllUsed l k b ((j, c) ∷ d) v (w, u) = elim (Bool-cases (same_identity j k)) [
  | inl same ↦ rw same (v, u)
  | inr other ↦ rw other (w, put_bucket-AllUsed l k b d v u)
]

drop_stale-fresh :
    (l : Limits) (k : Identity) (b : Bucket) (d : Buckets)
    → find_bucket k d ≡ none
    → l.capacity ≤ b.tokens
    → AllUsed l d
    → drop_stale l.capacity (put_bucket k b d) ≡ d
unfolding find_bucket put_bucket drop_stale
drop_stale-fresh l k b [] none_yet full u =
    let gone : leb l.capacity b.tokens ≡ true = ground arith in rw gone refl
drop_stale-fresh l k b ((j, c) ∷ d) none_yet full (v, u) = elim (Bool-cases (same_identity j k)) [
  | inl same ↦ absurd (ground arith)
  | inr other ↦
      let kept : leb l.capacity c.tokens ≡ false = ground arith in
      rw (other, kept, drop_stale-fresh l k b d (rw (other, find_bucket) at none_yet) full u) refl
]

abbrev pub bucket_or_new : Limits → ℕ → Option Bucket → Bucket
bucket_or_new l made none = record { tokens = l.capacity; last_refill = made }
bucket_or_new l made (some b) = b

-- whether the request's own bucket is new and swept away at once
abbrev pub is_lost : Limits → ℕ → Identity → Store → Bool
is_lost l swept k s =
    not (is_some (find_bucket k s.buckets)) && not (ltb (swept - s.last_gc) l.minute)

-- A request leaves in the store the bucket that it has used, and every other as it was: of buckets that have been
-- used the sweep removes none, however long they have been idle. What it removes is the full
-- bucket that the request itself has just made, and the token that the request takes is then not counted.
pub is_allowed-buckets :
    (l : Limits) (made swept used : ℕ) (k : Identity) (s : Store)
    → 1 ≤ l.token
    → l.token ≤ l.capacity
    → AllUsed l s.buckets
    → let s' = (is_allowed l made swept used k s).1 in
      (s'.buckets ≡ (
        if is_lost l swept k s
        then s.buckets
        else put_bucket k
            (consume l used (bucket_or_new l made (find_bucket k s.buckets))).1
            s.buckets))
      × AllUsed l s'.buckets
unfolding is_allowed bucket_of maybe_gc keep_bucket
is_allowed-buckets l made swept used k s one room u =
    elim (Option-cases (find_bucket k s.buckets)) [
      | inr (b, p) ↦ elim (Bool-cases (ltb (swept - s.last_gc) l.minute)) [
        | inl soon ↦
            rw (p, is_allowed, soon, p)
              (
                refl,
                put_bucket-AllUsed l k (consume l used b).1 s.buckets
                    (consume-below l used b one room) u,
              )
        | inr late ↦
            rw (p, is_allowed, late, drop_stale-AllUsed l s.buckets u, p)
              (
                refl,
                put_bucket-AllUsed l k (consume l used b).1 s.buckets
                    (consume-below l used b one room) u,
              )
      ]
      | inl p ↦
          let b : Bucket = bucket_or_new l made none in
          elim (Bool-cases (ltb (swept - s.last_gc) l.minute)) [
            | inl soon ↦
                rw
                  (
                    p,
                    is_allowed,
                    soon,
                    find_bucket-put_bucket k b s.buckets,
                    put_bucket-put_bucket k b (consume l used b).1 s.buckets,
                  )
                  (
                    refl,
                    put_bucket-AllUsed l k (consume l used b).1 s.buckets
                        (consume-below l used b one room) u,
                  )
            | inr late ↦
                rw (p, is_allowed, late, drop_stale-fresh l k b s.buckets p (omega arith) u, p)
                  (refl, u)
          ]
    ]
