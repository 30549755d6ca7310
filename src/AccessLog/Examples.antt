-- ===== src/AccessLog/Examples.antt =====
-- The theorem of the access log at a concrete input.
use servion.Base.{ℕ, suc, List, [], ◌∷◌, some, none, ◌≡◌, refl, length}
use servion.Http.{
  Request, Handler, Cell, Clock, set_header, write_header, write, complete, status, body_allowed,
  received_body,
}
use servion.AccessLog.{Entry, middleware}
use servion.AccessLog.Laws.{Tidy, entry_matches_response}

-- The log and the time.
abbrev State : Type 0
State = List Entry × ℕ

abbrev log : Cell State (List Entry)
log = record {
  read = λ s. s.0;
  write = λ entries s. (entries, s.1);
  read_write = λ entries s. refl;
}

abbrev clock : Clock State
clock = record { now = λ s. ((s.0, suc s.1), s.1) }

abbrev created : Handler State
created r s = (s, set_header "A" "b" ∷ write_header 201 ∷ write (1 ∷ 2 ∷ []) ∷ write (3 ∷ []) ∷ [])

abbrev asking : Request
asking = record {
  method = "POST";
  path = "/items";
  header = [];
  body = [];
  remote_addr = "10.0.0.1:80";
  auth = none;
  request_id = none;
}

entry_matches_response_example :
    (complete (middleware log clock created) asking ([], 5) ≡ complete created asking ([], 6))
    × ((e : Entry) × (log.read (middleware log clock created asking ([], 5)).0 ≡ e ∷ [])
        × (status (complete (middleware log clock created) asking ([], 5)) ≡ some e.status)
        × (e.bytes ≡ length (complete (middleware log clock created) asking ([], 5)).body)
        × (length (received_body asking (complete (middleware log clock created) asking ([], 5)))
            ≡ e.bytes))
unfolding Tidy body_allowed
entry_matches_response_example = entry_matches_response log clock created asking ([], 5) (refl, tt)
