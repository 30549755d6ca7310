-- ===== src/RateLimit/Cleaning.antt =====
-- doCleanExpired frees memory and changes no decision, as long as a request reads one time.
use servion.Base.{
  ℕ, ◌+◌, ◌≤◌, ◌<◌, String, not, List, [], ◌∷◌, Option, none, some, ◌≡◌, refl, ap, inl, inr, arith,
  find, put, only, find-put, find-keep, str_eq, Bool-cases,
}
use servion.RateLimit.{
  Bucket, Config, Buckets, admit, admit_bucket, expired, clean_expired, Event, request, tick, step,
  decisions,
}

-- The bucket is the same, or it was dropped and the other has expired by the time `t`.
data Drops (cfg : Config) (t : ℕ) : Option Bucket → Option Bucket → Type 0 where
  same : {o p : Option Bucket} → o ≡ p → Drops cfg t o p
  gone :
      {o p : Option Bucket} (b : Bucket)
      → o ≡ none
      → p ≡ some b
      → cfg.interval + b.last_reset < t
      → Drops cfg t o p

-- `m` is `n` without some of the buckets that have expired by the time `t`.
abbrev Cleaned : Config → ℕ → Buckets → Buckets → Type 0
Cleaned cfg t m n = (c : String) → Drops cfg t (find c m) (find c n)

module _ (cfg : Config) where
  admit_bucket-Drops :
      {t : ℕ} {o p : Option Bucket} (now : ℕ)
      → t ≤ now
      → Drops cfg t o p
      → admit_bucket cfg now now o ≡ admit_bucket cfg now now p
  unfolding admit_bucket
  admit_bucket-Drops now h (same e) = cc
  admit_bucket-Drops now h (gone b d e late) = ground arith

  only-Drops :
      {t : ℕ} (o p : Option Bucket) (now : ℕ)
      → t ≤ now
      → Drops cfg t o p
      → Drops cfg now (only (λ b. not (expired cfg now b)) o) p
  unfolding expired
  only-Drops none p now h (same e) = same e
  only-Drops (some b) p now h (same e) = elim (Bool-cases (expired cfg now b)) [
    | inl old ↦ gone b (rw old) (ground arith) (ground arith)
    | inr young ↦ same (ground arith)
  ]
  only-Drops o p now h (gone b d e late) = gone b (ground arith) e (omega arith)

  later : {t : ℕ} {o p : Option Bucket} (now : ℕ) → t ≤ now → Drops cfg t o p → Drops cfg now o p
  later now h (same e) = same e
  later now h (gone b d e late) = gone b d e (omega arith)

  put-Cleaned :
      {t : ℕ} (m n : Buckets) (client : String) (b : Bucket)
      → Cleaned cfg t m n
      → Cleaned cfg t (put client b m) (put client b n)
  put-Cleaned m n client b h c =
      rw (find-put client c b m, find-put client c b n)
        (elim (Bool-cases (str_eq client c)) [ inl e ↦ rw e (same refl) | inr e ↦ rw e (h c) ])

-- The time of an event.
abbrev pub time : Event → ℕ
time (request client created now) = now
time (tick now) = now

-- The times do not fall, and start no earlier than `t`.
abbrev pub Ordered : ℕ → List Event → Type 0
Ordered t [] = Unit
Ordered t (e ∷ es) = (t ≤ time e) × Ordered (time e) es

-- The history without the ticks of the cleaner.
abbrev pub requests : List Event → List Event
requests [] = []
requests (request client created now ∷ es) = request client created now ∷ requests es
requests (tick now ∷ es) = requests es

-- The two readings of the clock agree in every request.
abbrev pub Steady : List Event → Type 0
Steady [] = Unit
Steady (request client created now ∷ es) = (created ≡ now) × Steady es
Steady (tick now ∷ es) = Steady es

decisions-Cleaned :
    (cfg : Config) (t : ℕ) (es : List Event) (m n : Buckets)
    → Ordered t es
    → Steady es
    → Cleaned cfg t m n
    → decisions cfg es m ≡ decisions cfg (requests es) n
unfolding decisions step admit clean_expired
decisions-Cleaned cfg t [] m n o a h = refl
decisions-Cleaned cfg t (request client created now ∷ es) m n (le, o) (a, steady) h =
    rw (a, admit_bucket-Drops cfg now le (h client))
      (ap (◌∷◌ (admit_bucket cfg now now (find client n)).0) (
        decisions-Cleaned cfg now es _ _ o steady (
          put-Cleaned cfg m n client (admit_bucket cfg now now (find client n)).1
            (λ c. later cfg now le (h c)))))
decisions-Cleaned cfg t (tick now ∷ es) m n (le, o) steady h =
    decisions-Cleaned cfg now es _ n o steady λ c.
      rw (find-keep (λ b. not (expired cfg now b)) c m)
        (only-Drops cfg (find c m) (find c n) now le (h c))

-- Whatever the limiter holds, and whenever the cleaner runs, every request of a history whose times
-- do not fall, and in which the two readings of the clock that a request makes agree, gets the
-- decision that it would get if the cleaner never ran.
pub clean_unobservable :
    (cfg : Config) (t : ℕ) (es : List Event) (buckets : Buckets)
    → Ordered t es
    → Steady es
    → decisions cfg es buckets ≡ decisions cfg (requests es) buckets
clean_unobservable cfg t es buckets o a =
    decisions-Cleaned cfg t es buckets buckets o a (λ c. same refl)
