-- ===== src/Metrics/Labels.antt =====
-- What the metrics say of an answer, and what the client saw.
use servion.Base.{ℕ, ◌-◌, [], some, ◌≡◌, refl, length, str_eq, if◌then◌else◌}
use servion.Text.{itoa}
use servion.Http.{Request, Handler, Cell, Clock, status, complete, received_body}
use servion.AccessLog.{record_ops, new_status_writer}
use servion.AccessLog.Laws.{Tidy, record_ops-Tidy, panics-Tidy, length-received}
use servion.Metrics.{Registry, observe, middleware}

-- For a handler that does not panic and sets at most one status, before its writes, and one that
-- takes a body: the middleware changes nothing of the response; it counts one request under the
-- status that the client receives; and it observes the size of the body that the handler wrote, all
-- of which the client receives if it did not ask by HEAD, and none if it did.
pub labels_match_response :
    {S M : Type 0} (registry : Registry M) (metrics : Cell S M) (clock : Clock S) (next : Handler S)
    (r : Request) (s : S)
    → let started = (clock.now s).0 in
      let answer = next r started in
      let ended = (clock.now answer.0).0 in
      let seen = complete (middleware registry metrics clock next) r s in
      Tidy answer.1
      → (seen ≡ complete next r started)
        × ((code duration size : ℕ) × (status seen ≡ some code)
            × (metrics.read (middleware registry metrics clock next r s).0
                ≡ registry.observe_size r.method r.path size (
                    registry.observe_duration r.method r.path duration (
                      registry.inc_requests_total r.method r.path
                        (itoa code)
                        (metrics.read ended))))
            × (size ≡ length seen.body)
            × (length (received_body r seen) ≡ (if str_eq r.method "HEAD" then 0 else size)))
unfolding middleware observe
labels_match_response registry metrics clock next r s t =
    let ops = (next r (clock.now s).0).1 in
    let (st, len) = record_ops-Tidy ops [] t in
    let code = (record_ops new_status_writer ops).status in
    let duration = (clock.now (next r (clock.now s).0).0).1 - (clock.now s).1 in
    rw (panics-Tidy ops t) (
      refl,
      (
        code,
        duration,
        (record_ops new_status_writer ops).written,
        st,
        metrics.read_write _ _,
        len,
        length-received r (complete next r (clock.now s).0) len,
      ),
    )
