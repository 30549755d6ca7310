-- ===== src/Cors/Examples.antt =====
-- Tests of the CORS middleware, and its theorems at concrete inputs.
use servion.Base.{true, [], ◌∷◌, some, none, ◌≡◌, refl}
use servion.Http.{Request, Handler, get, same_key, write, status, sent_header, complete}
use servion.Http.Silent.{touches}
use servion.Cors.{Config, is_origin_allowed, middleware}
use servion.Cors.Laws.{granted, preflight_answered, origin_reported}

abbrev one_origin : Config
one_origin = record {
  prefixes = "/" ∷ [];
  allow_origins = "https://a.example" ∷ [];
  allow_methods = "GET" ∷ "POST" ∷ [];
  allow_headers = "Authorization" ∷ [];
  expose_headers = "X-Request-ID" ∷ [];
  allow_creds = true;
  max_age = "86400";
}

abbrev preflight : Request
preflight = record {
  method = "OPTIONS";
  path = "/api";
  header = ("origin", "https://a.example") ∷ [];
  body = [];
  remote_addr = "10.0.0.1:80";
  auth = none;
  request_id = none;
}

abbrev page : Handler (Unit {0})
page r s = (s, write (1 ∷ []) ∷ [])

preflight_test : granted one_origin preflight ≡ true
unfolding is_origin_allowed get same_key
preflight_test = refl

preflight_answered_test :
    ((middleware one_origin page preflight tt).0 ≡ tt)
    × (status (complete (middleware one_origin page) preflight tt) ≡ some 204)
    × (sent_header "Access-Control-Allow-Origin"
          (complete (middleware one_origin page) preflight tt)
        ≡ "https://a.example")
unfolding get same_key
preflight_answered_test = preflight_answered one_origin page preflight tt preflight_test refl

abbrev foreign : Request
foreign = record preflight { method = "GET"; header = ("Origin", "https://b.example") ∷ [] }

origin_reported_example :
    sent_header "Access-Control-Allow-Origin" (complete (middleware one_origin page) foreign tt)
    ≡ ""
unfolding touches is_origin_allowed get same_key
origin_reported_example = origin_reported one_origin page foreign tt (refl, tt)
