-- ===== src/RateLimit/Middleware.antt =====
-- The handler that Middleware returns, and what it does with a request.
use servion.Base.{
  ℕ, ◌/◌, ◌+◌, ◌≤◌, String, Bool, true, false, List, [], ◌∷◌, Option, none, some, ◌≡◌, refl, arith,
  find, find-put, put, eq_refl, any, if◌then◌else◌, str_eq,
}
use servion.Text.{is_empty, has_prefix, trim_space, split, itoa}
use servion.Http.{
  Request, Handler, Op, set_header, error, get, Cell, Clock, run, respond, status, sent_header,
  fresh, Middleware, same_key,
}
use servion.RateLimit.{Bucket, Config, Buckets, admit, admit_bucket}
use servion.Base.Int.{ℤ, at_least}

abbrev first : List String → String
first [] = ""
first (x ∷ xs) = x

-- The client that a request names, or none when the limiter lets the request through unseen.
unfoldable pub client_of : Config → Request → Option String
client_of cfg r =
    if str_eq r.method "OPTIONS"
    then none
    else let xff = get cfg.client_id_header r.header in
      if is_empty xff then none else some (trim_space (first (split xff b',')))

abbrev pub nanos_per_second : ℕ
nanos_per_second = 1_000_000_000

unfoldable pub too_many : Config → List Op
too_many cfg =
    set_header "Retry-After" (itoa (cfg.interval / nanos_per_second))
    ∷ error "rate limit exceeded" 429

too_many-answer :
    (cfg : Config)
    → (status (run (too_many cfg) fresh) ≡ some 429)
      × (sent_header "Retry-After" (run (too_many cfg) fresh)
          ≡ itoa (cfg.interval / nanos_per_second))
unfolding too_many error run get same_key
too_many-answer cfg = (refl, refl)

-- Match
unfoldable pub applies : Config → String → Bool
applies cfg prefix = any (λ p. has_prefix prefix p) cfg.prefixes

module _ {S : Type 0} (cfg : Config) (buckets : Cell S Buckets) (clock : Clock S) where
  -- The reading for a new bucket, which is taken if the client has none.
  created : Option Bucket → S → S × ℕ
  created none s = clock.now s
  created (some b) s = (s, 0)

  -- The critical section: the state behind it, and the decision.
  unfoldable pub limit_client : String → S → S × Bool
  unfolding created
  limit_client client s =
      let m = buckets.read s in
      let (s₁, made) = created (find client m) s in
      let (s₂, now) = clock.now s₁ in
      let (granted, m') = admit cfg made now client m in (buckets.write m' s₂, granted)

  unfoldable pub middleware : Handler S → Handler S
  middleware next r s = elim (client_of cfg r) [
    | none ↦ next r s
    | some client ↦
        let (s', granted) = limit_client client s in
        if granted then next r s' else (s', too_many cfg)
  ]

  unfoldable pub rate_limiter : ℤ → Middleware S
  unfolding middleware applies
  rate_limiter order = record { bean_order = order; applies = applies cfg; wrap = middleware }

  limit_client-full :
      (s : S) (client : String) (b : Bucket)
      → find client (buckets.read s) ≡ some b
      → at_least b.count cfg.limit ≡ true
      → (clock.now s).1 ≤ b.last_reset + cfg.interval
      → limit_client client s
        ≡ (buckets.write (put client b (buckets.read s)) (clock.now s).0, false)
  unfolding limit_client admit admit_bucket
  limit_client-full s client b f full soon = rw f (ground arith)

  -- A client whose bucket has reached the limit and is not due for a reset is answered by 429 with
  -- the seconds of the interval to wait, whatever the handler; the handler does not run and the
  -- bucket stays as it is.
  pub middleware_rejects :
      (next : Handler S) (r : Request) (s : S) (client : String) (b : Bucket)
      → client_of cfg r ≡ some client
      → find client (buckets.read s) ≡ some b
      → at_least b.count cfg.limit ≡ true
      → (clock.now s).1 ≤ b.last_reset + cfg.interval
      → let s' = (middleware next r s).0 in
        let answer = respond (middleware next) r s in
        (find client (buckets.read s') ≡ some b)
        × (status answer ≡ some 429)
        × (sent_header "Retry-After" answer ≡ itoa (cfg.interval / nanos_per_second))
  unfolding middleware
  middleware_rejects next r s client b c f full soon =
      rw (c, middleware, limit_client-full s client b f full soon)
        (
          rw (buckets.read_write, find-put, eq_refl client),
          (too_many-answer cfg).0,
          (too_many-answer cfg).1,
        )

  -- OPTIONS requests and requests without the client's header reach the handler, and the limiter's
  -- state is not touched; a client that has no bucket, or room in it, reaches the handler too,
  -- and is counted.
  pub middleware_passes :
      (next : Handler S) (r : Request) (s : S)
      → (client_of cfg r ≡ none → middleware next r s ≡ next r s)
        × ((client : String)
            → client_of cfg r ≡ some client
            → (limit_client client s).1 ≡ true
            → middleware next r s ≡ next r (limit_client client s).0)
  unfolding middleware
  middleware_passes next r s = (λ e. rw (e, middleware), λ client e g. rw (e, middleware) (rw g))
