-- ===== src/RateLimit/Examples.antt =====
-- Tests of the limit on requests, and its theorems at concrete inputs.
use bit_cadence.Prelude.{◌+◌, ◌*◌, ◌≤◌, ◌≡◌, refl, arith, none, [], ◌∷◌, if◌then◌else◌}
use bit_cadence.RateLimit.{
  Limits, Bucket, consume, tok, ip, put_bucket, find_bucket, Store, is_allowed, dispatch,
  too_many_requests, Request,
}
use bit_cadence.RateLimit.Drain.{drain, drain-capped}
use bit_cadence.RateLimit.Buckets.{AllUsed, bucket_or_new, is_lost, is_allowed-buckets}

-- two requests a minute, with a clock of seconds
abbrev limits : Limits
limits = record { capacity = 120; rate = 2; token = 60; minute = 60 }

abbrev full : Bucket
full = record { tokens = 120; last_refill = 0 }

drain_burst : drain limits 0 (0 ∷ 1 ∷ 1 ∷ 28 ∷ []) full ≡ 3
unfolding drain
drain_burst = refl

drain-capped_example :
    (60 * drain limits 500 (0 ∷ 1 ∷ 1 ∷ 28 ∷ []) full ≤ 120 + 30 * 2)
    × (60 * drain limits 500 (0 ∷ 1 ∷ 1 ∷ 28 ∷ []) full ≤ 120 + (500 + 30) * 2)
drain-capped_example = drain-capped limits 500 0 (1 ∷ 1 ∷ 28 ∷ []) full

abbrev idle : Store
idle = record { buckets = (tok "ann", record { tokens = 60; last_refill = 0 }) ∷ []; last_gc = 0 }

-- The sweep of a request by another, two hours later.
is_allowed-buckets_example :
    let s' = (is_allowed limits 7200 7200 7200 (ip "10.0.0.9") idle).1 in
    (s'.buckets ≡ (
      if is_lost limits 7200 (ip "10.0.0.9") idle
      then idle.buckets
      else put_bucket
          (ip "10.0.0.9")
          (consume limits 7200
            (bucket_or_new limits 7200 (find_bucket (ip "10.0.0.9") idle.buckets))).1
          idle.buckets))
    × AllUsed limits s'.buckets
is_allowed-buckets_example =
    is_allowed-buckets limits 7200 7200 7200 (ip "10.0.0.9") idle (omega arith) (omega arith)
      (omega arith, tt)

-- a third request at once
abbrev third : Request
third = record { path = "/jobs"; authorization = "Bearer  ann "; forwarded_for = ""; host = none }

dispatch-third :
    (dispatch limits 1 1 1 third (record {
      buckets = (tok "ann", record { tokens = 0; last_refill = 0 }) ∷ [];
      last_gc = 0;
    })).0
    ≡ too_many_requests
unfolding dispatch
dispatch-third = refl
