-- ===== src/AuthExample.antt =====
-- examples/auth/main.go: a program of the framework's own components, with two handlers of its own.
-- encoding/json is an argument, and so is the health handler's answer.
pub mod Me
mod Examples
use servion.Base.{ℕ, String, Bool, false, List, [], ◌∷◌, Option, none, some, find}
use servion.Base.Int.{ℤ, pos}
use servion.Http.{Request, Handler, Op, AuthInfo, set_header, write, error}
use servion.Factory.{Properties, HttpHandler, ServerFactory}
use servion.Auth.{Authenticator, auth_middleware}
use servion.Jwt
use servion.Auth

-- What the two handlers encode.
pub data Json : Type 0 where
  status_map : List (String × String) → Json
  -- The fields of the identity, in a map.
  identity_map : AuthInfo → Json

-- What MeHandler answers to an identity.
unfoldable pub identity_answer : (Json → List ℕ) → AuthInfo → List Op
identity_answer json auth =
    set_header "Content-Type" "application/json" ∷ write (json (identity_map auth)) ∷ []

module _ {S : Type 0} (json : Json → List ℕ) where
  -- StatusHandler.ServeHTTP
  unfoldable pub serve_status : Handler S
  serve_status r s = (
    s,
    set_header "Content-Type" "application/json"
        ∷ write (json (status_map (("status", "ok") ∷ [])))
        ∷ [],
  )

  -- MeHandler.ServeHTTP
  unfoldable pub serve_me : Handler S
  unfolding identity_answer
  serve_me r s = elim r.auth [
    | none ↦ (s, error "auth context missing" 401)
    | some auth ↦ (s, identity_answer json auth)
  ]

-- The map of properties; a key that is missing has its default.
abbrev pub property_map : List (String × String)
property_map =
    ("http-server.bind-address", "0.0.0.0:8000")
    ∷ ("http-server.options", "handlers")
    ∷ ("auth.prefixes", "/api")
    ∷ ("jwt.secret", "change-me-to-a-real-secret-in-production")
    ∷ []

unfoldable pub or_default : String → Option String → String
or_default default none = default
or_default default (some value) = value

unfoldable pub properties : Properties
unfolding or_default
properties = record {
  get_string = λ key default. or_default default (find key property_map);
  get_int = λ key default. default;
  get_duration = λ key default. default;
}

-- What is injected into the bearer gate and the JWT provider.
abbrev pub gate_config : Auth.Config
gate_config = record { prefixes = "/api" ∷ [] }

abbrev pub jwt_config : Jwt.Config
jwt_config = record {
  secret = "change-me-to-a-real-secret-in-production";
  public_key_b64 = "";
  issuer = "";
  audience = "";
  roles_claim = "roles";
  scopes_claim = "scope";
}

module _ {S : Type 0} (json : Json → List ℕ) (authenticate : Authenticator S)
    (health : Handler S) where
  -- The beans of main, injected into the factory of the HTTP server.
  unfoldable pub http_server : ServerFactory S
  unfolding properties serve_status serve_me
  http_server = record {
    bean_name = "http-server";
    properties = properties;
    handlers =
        record { pattern = "/status"; serve = serve_status json }
        ∷ record { pattern = "/api/me"; serve = serve_me json }
        ∷ record { pattern = "/healthz"; serve = health }
        ∷ [];
    middlewares = auth_middleware authenticate gate_config (pos 10) ∷ [];
    resources = [];
    tls_config = false;
  }
