-- ===== src/RateLimit/Window.antt =====
-- How many requests of one client pass: the counting window is fixed, from one reset to the next.
use servion.Base.{
  ℕ, ◌+◌, ◌-◌, ◌*◌, ◌≤◌, String, Bool, true, false, not, List, [], ◌∷◌, Option, none, some, ◌≡◌,
  refl, ap, subst, arith, find, put, keep, only, find-put, find-keep, if◌then◌else◌, leb, All,
  eq_iff, str_eq, Bool-cases, inl, inr,
}
use servion.Base.Int.{ℤ, pos, negsuc, pos_part}
use servion.RateLimit.{
  Bucket, Config, Buckets, admit, admit_bucket, expired, clean_expired, Event, request, tick, step,
}
use servion.RateLimit.Cleaning.{time}

-- The first reading of the clock in an event.
abbrev pub first_reading : Event → ℕ
first_reading (request client created now) = created
first_reading (tick now) = now

-- One for a request of the client that was granted.
abbrev hit : String → Event → Option Bool → ℕ
hit client (request c created now) (some true) = if str_eq c client then 1 else 0
hit client (request c created now) (some false) = 0
hit client (request c created now) none = 0
hit client (tick now) d = 0

module _ (cfg : Config) where
  -- The number of requests of the client that a history lets pass.
  unfoldable pub grants : String → List Event → Buckets → ℕ
  grants client [] m = 0
  grants client (e ∷ es) m = let (d, m') = step cfg e m in hit client e d + grants client es m'

  -- The buckets after a history.
  unfoldable pub after : List Event → Buckets → Buckets
  after [] m = m
  after (e ∷ es) m = after es (step cfg e m).1

  -- How many requests may still pass in the interval that starts at `from`.
  room : ℕ → Option Bucket → ℕ
  room from none = pos_part cfg.limit
  room from (some b) =
      pos_part cfg.limit - b.count + (if leb from b.last_reset then 0 else pos_part cfg.limit)

  abbrev pub Within : ℕ → Event → Type 0
  Within from e = (from ≤ first_reading e) × (from ≤ time e) × (time e ≤ from + cfg.interval)

  abbrev granted : Bool → ℕ
  granted true = 1
  granted false = 0

  room-admit_bucket :
      (limit : ℤ) (from created now : ℕ) (o : Option Bucket)
      → cfg.limit ≡ limit
      → from ≤ created
      → from ≤ now
      → now ≤ from + cfg.interval
      → granted (admit_bucket cfg created now o).0
          + room from (some (admit_bucket cfg created now o).1)
        ≤ room from o
  unfolding room admit_bucket
  room-admit_bucket (pos l) from created now o e early lo hi = ground arith
  room-admit_bucket (negsuc l) from created now o e early lo hi = ground arith

  room-only :
      (from now : ℕ) (o : Option Bucket)
      → now ≤ from + cfg.interval
      → room from (only (λ b. not (expired cfg now b)) o) ≤ room from o
  unfolding room expired
  room-only from now o hi = ground arith

  hit_self :
      (client c : String) (created now : ℕ) (g : Bool)
      → hit client (request c created now) (some g) ≡ (if str_eq c client then granted g else 0)
  hit_self client c created now true = refl
  hit_self client c created now false = ground arith

  room-request :
      (client c : String) (from created now : ℕ) (m : Buckets)
      → from ≤ created
      → from ≤ now
      → now ≤ from + cfg.interval
      → let d = admit_bucket cfg created now (find c m) in
        hit client (request c created now) (some d.0) + room from (find client (put c d.1 m))
        ≤ room from (find client m)
  room-request client c from created now m early lo hi =
      let d = admit_bucket cfg created now (find c m) in
      rw (hit_self client c created now d.0, find-put c client d.1 m)
        (elim (Bool-cases (str_eq c client)) [
          | inl e ↦ rw e (
              subst (λ x. granted d.0 + room from (some d.1) ≤ room from (find x m))
                ((eq_iff c client).0 e)
                (room-admit_bucket cfg.limit from created now (find c m) refl early lo hi))
          | inr e ↦ rw e (omega arith)
        ])

  grants-le-room :
      (client : String) (from : ℕ) (es : List Event) (m : Buckets)
      → All (Within from) es
      → grants client es m ≤ room from (find client m)
  unfolding grants step admit clean_expired
  grants-le-room client from [] m w = omega arith
  grants-le-room client from (tick now ∷ es) m (w, ws) = omega (
    arith,
    grants-le-room client from es (keep (λ b. not (expired cfg now b)) m) ws,
    ap (room from) (find-keep (λ b. not (expired cfg now b)) client m),
    room-only from now (find client m) w.2,
  )
  grants-le-room client from (request c created now ∷ es) m (w, ws) =
      let d = admit_bucket cfg created now (find c m) in
      omega (
        arith,
        grants-le-room client from es (put c d.1 m) ws,
        room-request client c from created now m w.0 w.1 w.2,
      )

  -- In any stretch of time of the length of the interval, by all readings of the clock, a client
  -- gets at most twice the limit.
  pub grants_bounded :
      (client : String) (from : ℕ) (es : List Event) (m : Buckets)
      → All (Within from) es
      → grants client es m ≤ 2 * pos_part cfg.limit
  unfolding room
  grants_bounded client from es m w = ground (arith, grants-le-room client from es m w)
