-- ===== src/AccessLog.antt =====
-- accesslog_middleware.go: one entry for each request, through a writer that records the status
-- and the size. The log is a part of the state; the inner writer is taken to write all it is given.
pub mod Laws
mod Examples
use servion.Base.{
  ℕ, ◌+◌, ◌-◌, String, Bool, List, [], ◌∷◌, ◌++◌, Option, some, none, any, length, if◌then◌else◌,
}
use servion.Base.Int.{ℤ}
use servion.Text.{is_empty, has_prefix}
use servion.Http.{
  Request, Handler, Op, Middleware, Cell, Clock, set_header, add_header, del_header, write_header,
  write, panic, get,
}

-- The fields of an entry.
pub record Entry : Type 0 where
  pub method : String
  pub path : String
  pub status : ℕ
  pub duration : ℕ
  pub bytes : ℕ
  pub remote : String
  pub request_id : Option String
  pub user_agent : Option String

-- statusWriter
pub record StatusWriter : Type 0 where
  pub status : ℕ
  pub written : ℕ

abbrev pub new_status_writer : StatusWriter
new_status_writer = record { status = 200; written = 0 }

-- WriteHeader and Write; the calls themselves go on to the inner writer.
unfoldable pub record_op : StatusWriter → Op → StatusWriter
record_op w (write_header code) = record w { status = code }
record_op w (write b) = record w { written = w.written + length b }
record_op w _ = w

unfoldable pub record_ops : StatusWriter → List Op → StatusWriter
unfolding record_op
record_ops w [] = w
record_ops w (op ∷ ops) = record_ops (record_op w op) ops

-- The handler panicked, so that the code behind it does not run.
unfoldable pub panics : List Op → Bool
panics [] = Bool.false
panics (panic ∷ ops) = Bool.true
panics (_ ∷ ops) = panics ops

-- The configured fields of implAccessLogMiddleware.
pub record Config : Type 0 where
  pub prefixes : List String

-- Match
unfoldable pub applies : Config → String → Bool
applies cfg prefix = any (λ p. has_prefix prefix p) cfg.prefixes

unfoldable pub entry : Request → StatusWriter → ℕ → Entry
entry r w duration =
    let agent = get "User-Agent" r.header in
    record {
      method = r.method;
      path = r.path;
      status = w.status;
      duration = duration;
      bytes = w.written;
      remote = r.remote_addr;
      request_id = r.request_id;
      user_agent = if is_empty agent then none else some agent;
    }

module _ {S : Type 0} (log : Cell S (List Entry)) (clock : Clock S) where
  unfoldable pub middleware : Handler S → Handler S
  unfolding record_ops entry panics
  middleware next r s =
      let (s₁, start) = clock.now s in
      let (s₂, ops) = next r s₁ in
      let (s₃, end) = clock.now s₂ in
      let e = entry r (record_ops new_status_writer ops) (end - start) in
      if panics ops then (s₂, ops) else (log.write (log.read s₃ ++ e ∷ []) s₃, ops)

  unfoldable pub access_log_middleware : Config → ℤ → Middleware S
  unfolding middleware applies
  access_log_middleware cfg order = record {
    bean_order = order;
    applies = applies cfg;
    wrap = middleware;
  }
