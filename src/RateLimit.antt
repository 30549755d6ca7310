-- ===== src/RateLimit.antt =====
-- ratelimit_middleware.go: the limiter that implRateLimiterMiddleware keeps for each client.
-- Time is in nanoseconds. The interval is positive, as time.NewTicker of PostConstruct wants, so
-- a difference of times that stops at 0 compares with it as the signed one does.
pub mod Middleware
pub mod Isolation
pub mod Window
pub mod Burst
pub mod Cleaning
mod Examples
use servion.Base.{
  ℕ, zero, suc, ◌+◌, ◌-◌, ◌*◌, String, Bool, true, false, not, List, [], ◌∷◌, Option, none, some,
  ltb, if◌then◌else◌, find, put, keep,
}
use servion.Base.Int.{ℤ, at_least}

-- rateBucket
pub record Bucket : Type 0 where
  pub count : ℕ
  pub last_reset : ℕ

-- The configured fields of implRateLimiterMiddleware.
pub record Config : Type 0 where
  pub prefixes : List String
  pub limit : ℤ
  pub interval : ℕ
  pub client_id_header : String

abbrev pub Buckets : Type 0
Buckets = List (String × Bucket)

-- The client's bucket, or a new one, reset at the time `created`.
bucket_of : ℕ → Option Bucket → Bucket
bucket_of created none = record { count = 0; last_reset = created }
bucket_of created (some b) = b

-- Reset if the interval passed.
refresh : Config → ℕ → Bucket → Bucket
refresh cfg now b =
    if ltb cfg.interval (now - b.last_reset) then record { count = 0; last_reset = now } else b

-- The critical section of Middleware: the decision, and the bucket as it is left.
unfoldable pub charge : Config → ℕ → Bucket → Bool × Bucket
charge cfg now b =
    if at_least b.count cfg.limit then (false, b) else (true, record b { count = suc b.count })

unfoldable pub admit_bucket : Config → ℕ → ℕ → Option Bucket → Bool × Bucket
unfolding bucket_of refresh charge
admit_bucket cfg created now found = charge cfg now (refresh cfg now (bucket_of created found))

unfoldable pub admit : Config → ℕ → ℕ → String → Buckets → Bool × Buckets
admit cfg created now client buckets =
    let (granted, b) = admit_bucket cfg created now (find client buckets) in
    (granted, put client b buckets)

-- now.Sub(b.lastReset) > t.Interval*5
unfoldable pub expired : Config → ℕ → Bucket → Bool
expired cfg now b = ltb (cfg.interval * 5) (now - b.last_reset)

-- doCleanExpired
unfoldable pub clean_expired : Config → ℕ → Buckets → Buckets
unfolding expired
clean_expired cfg now buckets = keep (λ b. not (expired cfg now b)) buckets

-- What happens to a limiter: a request of a client, with its two readings of the clock, `created`
-- for a new bucket and `now` after it, or a tick of cleanerLoop.
pub data Event : Type 0 where
  request : String → ℕ → ℕ → Event
  tick : ℕ → Event

-- The buckets after the event; a tick decides nothing.
unfoldable pub step : Config → Event → Buckets → Option Bool × Buckets
step cfg (request client created now) buckets =
    let (granted, buckets') = admit cfg created now client buckets in (some granted, buckets')
step cfg (tick now) buckets = (none, clean_expired cfg now buckets)

abbrev onto : Option Bool → List Bool → List Bool
onto none ds = ds
onto (some d) ds = d ∷ ds

-- The decisions of a history, in order.
unfoldable pub decisions : Config → List Event → Buckets → List Bool
decisions cfg [] buckets = []
decisions cfg (e ∷ es) buckets =
    let (d, buckets') = step cfg e buckets in onto d (decisions cfg es buckets')
