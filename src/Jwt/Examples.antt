-- ===== src/Jwt/Examples.antt =====
-- The theorems of the JWT authenticator at concrete inputs.
use servion.Base.{
  String, Bool, true, false, [], ◌∷◌, Option, none, some, ◌≡◌, refl, find, str_eq, if◌then◌else◌,
  inl, inr, Bool-cases,
}
use servion.Text.{is_space, join}
use servion.Jwt.{
  Claims, string, is_separator, parse_scope_claim, claim_string_slice, hmac, Key, secret,
  public_key, Token, Library, Config, ParsedKey, malformed, hmac_key_func, post_construct,
  authenticate, info_of,
}
use servion.Jwt.Scopes.{claims_of_joined}
use servion.Jwt.Keys.{none-some, Verified, authenticate-Verified}

abbrev claims : Claims
claims = ("sub", string "ada") ∷ ("scope", string "read,write") ∷ []

claims_of_joined_test :
    (parse_scope_claim claims "scope" ≡ "read" ∷ "write" ∷ [])
    × (claim_string_slice claims "scope" ≡ "read" ∷ "write" ∷ [])
unfolding find join is_separator is_space
claims_of_joined_test = claims_of_joined claims "scope" "," ("read" ∷ "write" ∷ []) refl refl (
  ((refl, (refl, (refl, (refl, (refl, tt))))), (refl, (refl, (refl, (refl, tt))))),
  (
    (
      (refl, (refl, (refl, (refl, (refl, (refl, tt)))))),
      (refl, (refl, (refl, (refl, (refl, tt))))),
    ),
    tt,
  ),
)

-- A library for which every token names HMAC and is signed by the secret "s".
abbrev verify : Option (Key (Unit {0})) → Option Token
verify (some (secret value)) =
    if str_eq value "s" then some (record { claims = some claims; valid = true }) else none
verify _ = none

-- Signatures by the secret "s" are right.
abbrev by_secret : Key (Unit {0}) → Bool
by_secret (secret value) = str_eq value "s"
by_secret (public_key key) = false

verify-by_secret :
    (key : Option (Key (Unit {0}))) (token : Token)
    → verify key ≡ some token
    → (k : Key (Unit {0})) × (key ≡ some k) × (by_secret k ≡ true)
verify-by_secret none token e = cc
verify-by_secret (some (public_key key)) token e = cc
verify-by_secret (some (secret value)) token e = elim (Bool-cases (str_eq value "s")) [
  | inl y ↦ (secret value, refl, y)
  | inr n ↦ absurd (none-some (rw n at e))
]

abbrev hmac_library : Library (Unit {0}) (Unit {0})
hmac_library = record {
  parse = λ key_func options raw s. verify (key_func hmac);
  method = λ raw. hmac;
  signed = λ key raw. by_secret key;
  parse_verifies = λ key_func options raw s token e. verify-by_secret (key_func hmac) token e;
}

abbrev shared_secret : Config
shared_secret = record {
  secret = "s";
  public_key_b64 = "";
  issuer = "";
  audience = "";
  roles_claim = "roles";
  scopes_claim = "scope";
}

abbrev no_key : String → ParsedKey (Unit {0})
no_key s = malformed

authenticate-Verified_example : Verified hmac_library no_key shared_secret "a.b.c"
unfolding post_construct authenticate hmac_key_func
authenticate-Verified_example =
    authenticate-Verified hmac_library no_key (λ t. t) shared_secret (hmac_key_func "s") "a.b.c" tt
      (info_of shared_secret "a.b.c" claims) refl refl
