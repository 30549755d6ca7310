-- ===== src/Metrics.antt =====
-- metrics_handler.go, the middleware: what it observes of each answer. Prometheus is the record
-- Registry, over its own data; metricsStatusWriter is the status writer of the access log, field
-- for field.
pub mod Labels
mod Examples
use servion.Base.{ℕ, ◌-◌, String, Bool, List, [], ◌∷◌, any, if◌then◌else◌}
use servion.Base.Int.{ℤ}
use servion.Text.{has_prefix, itoa}
use servion.Http.{Request, Handler, Op, Middleware, Cell, Clock}
use servion.AccessLog.{StatusWriter, new_status_writer, record_ops, panics}

-- httpRequestsTotal, httpRequestDuration and httpResponseSize, with the values of their labels.
pub record Registry (M : Type 0) : Type 0 where
  pub inc_requests_total : (method path status : String) → M → M
  pub observe_duration : (method path : String) → (nanoseconds : ℕ) → M → M
  pub observe_size : (method path : String) → (bytes : ℕ) → M → M

-- The configured fields of implMetricsMiddleware.
pub record Config : Type 0 where
  pub prefixes : List String

-- Match
unfoldable pub applies : Config → String → Bool
applies cfg prefix = any (λ p. has_prefix prefix p) cfg.prefixes

module _ {S M : Type 0} (registry : Registry M) (metrics : Cell S M) (clock : Clock S) where
  -- The three observations behind the handler.
  unfoldable pub observe : Request → StatusWriter → ℕ → M → M
  observe r w duration m = registry.observe_size r.method r.path w.written (
      registry.observe_duration r.method r.path duration
        (registry.inc_requests_total r.method r.path (itoa w.status) m))

  unfoldable pub middleware : Handler S → Handler S
  unfolding observe record_ops panics
  middleware next r s =
      let (s₁, start) = clock.now s in
      let (s₂, ops) = next r s₁ in
      let (s₃, end) = clock.now s₂ in
      let w = record_ops new_status_writer ops in
      if panics ops
      then (s₂, ops)
      else (metrics.write (observe r w (end - start) (metrics.read s₃)) s₃, ops)

  unfoldable pub metrics_middleware : Config → ℤ → Middleware S
  unfolding middleware applies
  metrics_middleware cfg order = record {
    bean_order = order;
    applies = applies cfg;
    wrap = middleware;
  }
