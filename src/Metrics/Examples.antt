-- ===== src/Metrics/Examples.antt =====
-- The theorem of the metrics at a concrete input.
use servion.Base.{ℕ, suc, String, List, [], ◌∷◌, some, none, ◌≡◌, refl, length}
use servion.Text.{itoa}
use servion.Http.{
  Request, Handler, Cell, Clock, write_header, write, complete, status, body_allowed, received_body,
}
use servion.AccessLog.Laws.{Tidy}
use servion.Metrics.{Registry, middleware}
use servion.Metrics.Labels.{labels_match_response}

-- The registry lists the statuses and the sizes.
abbrev Seen : Type 0
Seen = List String × List ℕ

abbrev registry : Registry Seen
registry = record {
  inc_requests_total = λ method path status m. (status ∷ m.0, m.1);
  observe_duration = λ method path duration m. m;
  observe_size = λ method path size m. (m.0, size ∷ m.1);
}

abbrev cell : Cell (Seen × ℕ) Seen
cell = record { read = λ s. s.0; write = λ m s. (m, s.1); read_write = λ m s. refl }

abbrev clock : Clock (Seen × ℕ)
clock = record { now = λ s. ((s.0, suc s.1), s.1) }

abbrev created : Handler (Seen × ℕ)
created r s = (s, write_header 201 ∷ write (1 ∷ 2 ∷ []) ∷ [])

abbrev asking : Request
asking = record {
  method = "POST";
  path = "/items";
  header = [];
  body = [];
  remote_addr = "10.0.0.1:80";
  auth = none;
  request_id = none;
}

abbrev none_seen : Seen × ℕ
none_seen = (([], []), 5)

labels_match_response_example :
    let seen = complete (middleware registry cell clock created) asking none_seen in
    (seen ≡ complete created asking (([], []), 6))
    × ((code duration size : ℕ) × (status seen ≡ some code)
        × (cell.read (middleware registry cell clock created asking none_seen).0
            ≡ (itoa code ∷ [], size ∷ []))
        × (size ≡ length seen.body)
        × (length (received_body asking seen) ≡ size))
unfolding Tidy body_allowed
labels_match_response_example =
    labels_match_response registry cell clock created asking none_seen (refl, tt)
