-- ===== src/AuthExample/Examples.antt =====
-- The theorem of the example program at a request that carries a token.
use servion.Base.{
  ℕ, String, Bool, true, false, List, [], ◌∷◌, Option, none, some, ◌⊎◌, inl, inr, ◌≡◌, refl, arith,
  str_eq, eq_iff, Bool-cases,
}
use servion.Http.{Request, Handler, Op, AuthInfo, get}
use servion.Factory.Guarded.{Mux, to_route, serve_object}
use servion.Auth.{bearer_token, ok}
use servion.Auth.Gate.{IsRefusal}
use servion.Jwt.{Claims, string, hmac, Key, secret, public_key, Token, Library}
use servion.Jwt.Keys.{none-some}
use servion.AuthExample.{Json, status_map, identity_map, identity_answer, jwt_config, http_server}
use servion.AuthExample.Me.{provider, me_answers}

abbrev claims : Claims
claims = ("sub", string "ada") ∷ []

-- Signatures by the configured secret are right, and every token has one.
abbrev by_secret : Key (Unit {0}) → Bool
by_secret (secret value) = str_eq value jwt_config.secret
by_secret (public_key key) = false

abbrev checked : Key (Unit {0}) → Bool → Option Token
checked key true = some (record { claims = some claims; valid = true })
checked key false = none

abbrev verify : Option (Key (Unit {0})) → Option Token
verify none = none
verify (some key) = checked key (by_secret key)

verify-by_secret :
    (key : Option (Key (Unit {0}))) (token : Token)
    → verify key ≡ some token
    → (k : Key (Unit {0})) × (key ≡ some k) × (by_secret k ≡ true)
verify-by_secret none token e = absurd (none-some e)
verify-by_secret (some key) token e = elim (Bool-cases (by_secret key)) [
  | inl y ↦ (key, refl, y)
  | inr n ↦ absurd (none-some (rw n at e))
]

abbrev library : Library (Unit {0}) (Unit {0})
library = record {
  parse = λ key_func options raw s. verify (key_func hmac);
  method = λ raw. hmac;
  signed = λ key raw. by_secret key;
  parse_verifies = λ key_func options raw s token e. verify-by_secret (key_func hmac) token e;
}

abbrev json : Json → List ℕ
json (status_map m) = 1 ∷ []
json (identity_map auth) = 2 ∷ []

abbrev health : Handler (Unit {0})
health r s = (s, [])

abbrev mux : Mux (Unit {0})
mux = record { choose = λ ps r. to_route 1; http_not_found = health }

abbrev hello : Request
hello = record {
  method = "GET";
  path = "/api/me";
  header = ("Authorization", "Bearer abc") ∷ [];
  body = [];
  remote_addr = "";
  auth = none;
  request_id = none;
}

me_answers_example :
    ((s' : Unit {0}) × (info : AuthInfo) × (token : String) × (bearer_token
          (get "Authorization" hello.header)
        ≡ some token)
      × (provider library (λ t. t) token tt ≡ (s', ok info))
      × (library.method token ≡ hmac)
      × (library.signed (secret jwt_config.secret) token ≡ true)
      × (serve_object mux (http_server json (provider library (λ t. t)) health) hello tt
          ≡ some (s', identity_answer json info)))
    ⊎ ((s' : Unit {0}) × (ops : List Op) × IsRefusal ops
        × (serve_object mux (http_server json (provider library (λ t. t)) health) hello tt
            ≡ some (s', ops)))
me_answers_example =
    me_answers library (λ t. t) json health mux hello tt refl
      (ground (arith, eq_iff "GET" "OPTIONS"))
