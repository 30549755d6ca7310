-- ===== src/RateLimit/Isolation.antt =====
-- Clients do not disturb one another.
use servion.Base.{ℕ, String, ◌≡◌, ap, ◌≢◌, arith, find, find-put, eq_iff}
use servion.RateLimit.{Config, Buckets, admit, admit_bucket}

-- A request changes the bucket of its own client and no other.
pub admit_isolated :
    (cfg : Config) (created now : ℕ) (client other : String) (buckets : Buckets)
    → client ≢ other
    → (find other (admit cfg created now client buckets).1 ≡ find other buckets)
      × ((admit cfg created now other (admit cfg created now client buckets).1).0
          ≡ (admit cfg created now other buckets).0)
unfolding admit
admit_isolated cfg created now client other buckets ne =
    (kept, ap (λ o. (admit_bucket cfg created now o).0) kept)
  where
    kept : find other (admit cfg created now client buckets).1 ≡ find other buckets
    kept = ground (
      arith,
      find-put client other (admit_bucket cfg created now (find client buckets)).1 buckets,
      eq_iff client other,
    )
