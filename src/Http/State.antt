-- ===== src/Http/State.antt =====
-- The state of the program as its handlers share it: a part that a component owns, and the clock.
use servion.Base.{ℕ, String, Bool, ◌≡◌}
use servion.Base.Int.{ℤ}
use servion.Http.Writer.{Handler}

-- A part `A` of the state `S`.
pub record Cell (S A : Type 0) : Type 0 where
  pub read : S → A
  pub write : A → S → S
  pub read_write : (a : A) (s : S) → read (write a s) ≡ a

-- time.Now: a reading, in nanoseconds.
pub record Clock (S : Type 0) : Type 0 where
  pub now : S → S × ℕ

-- api.go, HttpMiddleware
pub record Middleware (S : Type 0) : Type 0 where
  pub bean_order : ℤ
  pub applies : String → Bool
  pub wrap : Handler S → Handler S
