-- ===== src/RequestId/Examples.antt =====
-- A test of the request identifiers, and their theorem at a concrete input.
use servion.Base.{ℕ, suc, List, [], ◌∷◌, none, ◌≡◌, refl}
use servion.Http.{Request, Handler, get, write, sent_header, complete}
use servion.Http.Silent.{touches}
use servion.RequestId.{encode_hex, middleware}
use servion.RequestId.Laws.{middleware_identifies}

encode_hex_test : encode_hex (0 ∷ 175 ∷ 16 ∷ []) ≡ "00af10"
unfolding encode_hex
encode_hex_test = refl

abbrev anonymous : Request
anonymous = record {
  method = "GET";
  path = "/";
  header = [];
  body = [];
  remote_addr = "10.0.0.1:80";
  auth = none;
  request_id = none;
}

-- The state counts the draws.
abbrev draw : ℕ → ℕ × List ℕ
draw n = (suc n, n ∷ 255 ∷ [])

abbrev echo : Handler ℕ
echo r n = (n, write (1 ∷ []) ∷ [])

middleware_identifies_example :
    ((middleware draw echo anonymous 7).0 ≡ 8)
    × (sent_header "X-Request-ID" (complete (middleware draw echo) anonymous 7) ≡ "07ff")
unfolding get encode_hex touches
middleware_identifies_example = middleware_identifies draw echo anonymous 7 (refl, tt)
