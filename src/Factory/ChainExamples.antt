-- ===== src/Factory/ChainExamples.antt =====
-- The theorem of the guarded server at a concrete server, and a test of the chain.
use servion.Base.{
  ℕ, false, inl, inr, str_eq, if◌then◌else◌, List, [], ◌∷◌, none, ◌≡◌, refl, arith, eq_iff, find,
}
use servion.Base.Int.{pos, negsuc}
use servion.Http.{Request, Handler, Middleware, write}
use servion.Auth.{Authenticator, auth_middleware, unauthorized}
use servion.Auth.Tokens.{authenticate}
use servion.RequestId.{request_id_middleware}
use servion.Cors.{cors_middleware}
use servion.Text.{has_prefix}
use servion.Factory.{wrap_all, HttpHandler, ServerFactory}
use servion.Factory.Guarded.{Mux, to_route, serve_object, exchanged, object_guarded}
use servion.Factory.Chain.{request_id, cors, Unknown, wrap_all_guarded}
use servion.Auth

-- A provider without tokens.
abbrev nobody : Authenticator (Unit {0})
nobody token s = authenticate (λ t. t) (record { allowed = []; tokens = [] }) token s

abbrev identified : Middleware (Unit {0})
identified = request_id_middleware (λ s. (s, 1 ∷ [])) (record { prefixes = "/" ∷ [] }) (negsuc 9)

abbrev shared : Middleware (Unit {0})
shared =
    cors_middleware
      (record {
        prefixes = "/" ∷ [];
        allow_origins = "*" ∷ [];
        allow_methods = "GET" ∷ [];
        allow_headers = [];
        expose_headers = [];
        allow_creds = false;
        max_age = "60";
      })
      (pos 0)

abbrev everywhere : Auth.Config
everywhere = record { prefixes = "/" ∷ [] }

abbrev intruder : Request
intruder = record {
  method = "GET";
  path = "/api";
  header = ("Authorization", "Bearer guess") ∷ [];
  body = [];
  remote_addr = "";
  auth = none;
  request_id = none;
}

intruder-Unknown : Unknown nobody intruder
unfolding authenticate find
intruder-Unknown = record {
  asks = ground (arith, eq_iff "GET" "OPTIONS");
  rejected = λ token s c. (s, unauthorized, _, refl);
}

abbrev answer : List ℕ → Handler (Unit {0})
answer b r s = (s, write b ∷ [])

wrap_all_guarded_test :
    let ms = identified ∷ shared ∷ auth_middleware nobody everywhere (pos 1) ∷ [] in
    wrap_all ms "/api" (answer (1 ∷ [])) intruder tt ≡ wrap_all ms "/api" (answer []) intruder tt
unfolding Auth.applies has_prefix
wrap_all_guarded_test =
    wrap_all_guarded nobody "/api" (identified ∷ shared ∷ []) [] everywhere (pos 1)
      (answer (1 ∷ [])) (answer []) (request_id _ _ _, (cors _ _, tt)) refl intruder tt
      intruder-Unknown

abbrev api_only : Auth.Config
api_only = record { prefixes = "/api" ∷ [] }

abbrev factory : ServerFactory (Unit {0})
factory = record {
  bean_name = "http-server";
  properties = record {
    get_string = λ key default.
        if str_eq key "http-server.bind-address"
        then ":8080"
        else if str_eq key "http-server.options"
        then "handlers"
        else default;
    get_int = λ key default. default;
    get_duration = λ key default. default;
  };
  handlers =
      record { pattern = "/health"; serve = answer (2 ∷ []) }
      ∷ record { pattern = "/api/users"; serve = answer (1 ∷ []) }
      ∷ [];
  middlewares = identified ∷ shared ∷ auth_middleware nobody api_only (pos 1) ∷ [];
  resources = [];
  tls_config = false;
}

-- The handler on the guarded pattern does something else, the other one stays.
abbrev other : HttpHandler (Unit {0}) → Handler (Unit {0})
other h = if Auth.applies api_only h.pattern then answer [] else h.serve

-- The router takes the second route.
abbrev mux : Mux (Unit {0})
mux = record { choose = λ ps r. to_route 1; http_not_found = answer (4 ∷ 0 ∷ 4 ∷ []) }

object_guarded_example :
    serve_object mux factory intruder tt
    ≡ serve_object mux (record factory { handlers = exchanged other factory.handlers }) intruder tt
unfolding Auth.applies has_prefix
object_guarded_example =
    object_guarded nobody (identified ∷ shared ∷ []) [] api_only (pos 1) other factory mux
      (request_id _ _ _, (cors _ _, tt)) refl (inr refl, (inl refl, tt)) intruder tt
      intruder-Unknown
