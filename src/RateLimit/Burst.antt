-- ===== src/RateLimit/Burst.antt =====
-- A fixed window lets twice the limit pass around its end.
use servion.Base.{
  ℕ, zero, suc, ◌+◌, ◌*◌, ◌≤◌, ◌<◌, String, true, List, [], ◌∷◌, ◌++◌, none, some, ◌≡◌, refl, ◌∙◌,
  arith, find, put, find-put, replicate, eq_refl,
}
use servion.Base.Int.{pos}
use native.Mathlib.Nat.{add-zero}
use servion.RateLimit.{
  Bucket, bucket_of, Config, Buckets, admit, admit_bucket, Event, request, step,
}
use servion.RateLimit.Window.{grants, after}

module _ (cfg : Config) where
  grants-append :
      (client : String) (xs ys : List Event) (m : Buckets)
      → grants cfg client (xs ++ ys) m
        ≡ grants cfg client xs m + grants cfg client ys (after cfg xs m)
  unfolding grants after
  grants-append client [] ys m = omega arith
  grants-append client (x ∷ xs) ys m = omega (arith, grants-append client xs ys (step cfg x m).1)

  -- A request that passes leaves the bucket `b`.
  Passes : String → ℕ → Buckets → Bucket → Type 0
  Passes client now m b = step cfg (request client now now) m ≡ (some true, put client b m)

  step_first :
      (l : ℕ) (client : String) (now : ℕ) (m : Buckets)
      → cfg.limit ≡ pos (suc l)
      → find client m ≡ none
      → Passes client now m (record { count = 1; last_reset = now })
  unfolding Passes step admit admit_bucket
  step_first l client now m e f = rw (f, bucket_of) (ground arith)

  step_full :
      (l : ℕ) (client : String) (now : ℕ) (b : Bucket) (m : Buckets)
      → cfg.limit ≡ pos l
      → find client m ≡ some b
      → now ≤ b.last_reset + cfg.interval
      → b.count < l
      → Passes client now m (record b { count = suc b.count })
  unfolding Passes step admit admit_bucket
  step_full l client now b m e f t h = rw (f, bucket_of) (ground arith)

  step_reset :
      (l : ℕ) (client : String) (now : ℕ) (b : Bucket) (m : Buckets)
      → cfg.limit ≡ pos (suc l)
      → find client m ≡ some b
      → b.last_reset + cfg.interval < now
      → Passes client now m (record { count = 1; last_reset = now })
  unfolding Passes step admit admit_bucket
  step_reset l client now b m e f t = rw (f, bucket_of) (ground arith)

  grants-pass :
      (client : String) (now : ℕ) (m : Buckets) (b : Bucket) (es : List Event)
      → Passes client now m b
      → (grants cfg client (request client now now ∷ es) m
          ≡ suc (grants cfg client es (put client b m)))
        × (after cfg (request client now now ∷ es) m ≡ after cfg es (put client b m))
        × (find client (put client b m) ≡ some b)
  unfolding Passes grants after
  grants-pass client now m b es p =
      (rw (p, eq_refl client) (omega arith), rw p, rw (find-put client client b m, eq_refl client))

  -- With room in the bucket and no reset due, each of `n` requests passes and is counted.
  fills :
      (l : ℕ) (client : String) (now n : ℕ) (b : Bucket) (m : Buckets)
      → cfg.limit ≡ pos l
      → find client m ≡ some b
      → now ≤ b.last_reset + cfg.interval
      → b.count + n ≤ l
      → (grants cfg client (replicate n (request client now now)) m ≡ n)
        × (find client (after cfg (replicate n (request client now now)) m)
            ≡ some (record b { count = b.count + n }))
  unfolding grants after
  fills l client now zero b m e f t h = (refl, rw add-zero f)
  fills l client now (suc n) b m e f t h =
      let b' : Bucket = record b { count = suc b.count } in
      let (one, left, found) =
        grants-pass client now m b' (replicate n (request client now now))
          (step_full l client now b m e f t (omega arith)) in
      let (count, kept) = fills l client now n b' (put client b' m) e found t (omega arith) in
      (omega (arith, one, count), rw left (kept ∙ ground arith))

  -- From a fresh start: one request, the rest of the limit when the interval ends, and the whole
  -- limit an instant later.
  abbrev pub burst : String → ℕ → ℕ → List Event
  burst client t l =
      request client t t ∷ replicate l (request client (t + cfg.interval) (t + cfg.interval))
      ++ replicate (suc l) (request client (suc (t + cfg.interval)) (suc (t + cfg.interval)))

  -- All of them pass, twice the limit, and all but the first within one instant.
  pub burst_passes :
      (client : String) (t l : ℕ) (m : Buckets)
      → cfg.limit ≡ pos (suc l)
      → find client m ≡ none
      → grants cfg client (burst client t l) m ≡ 2 * suc l
  burst_passes client t l m e f =
      let end : ℕ = t + cfg.interval in
      let first : Bucket = record { count = 1; last_reset = t } in
      let again : Bucket = record { count = 1; last_reset = suc end } in
      let early = replicate l (request client end end) in
      let late = replicate l (request client (suc end) (suc end)) in
      let m₁ = put client first m in
      let m₂ = after cfg early m₁ in
      let (one, _, found) =
        grants-pass client t m first (early ++ request client (suc end) (suc end) ∷ late)
          (step_first l client t m e f) in
      let (count, kept) = fills (suc l) client end l first m₁ e found (omega arith) (omega arith) in
      let (two, _, found') =
        grants-pass client (suc end) m₂ again late (
          step_reset l client (suc end) (record first { count = 1 + l }) m₂ e kept (omega arith)) in
      let (count', _) =
        fills (suc l) client (suc end) l again (put client again m₂) e found' (omega arith)
          (omega arith) in
      omega (
        arith,
        one,
        grants-append client early (request client (suc end) (suc end) ∷ late) m₁,
        count,
        two,
        count',
      )
