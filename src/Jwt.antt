-- ===== src/Jwt.antt =====
-- jwt_auth_provider.go: the authenticator of JSON web tokens. golang-jwt is a record of what the
-- code asks of it; SHA-256 in hex, base64 and the parser of public keys are arguments.
mod Values
unfoldable pub use Values.*
pub mod Scopes
pub mod Keys
mod Examples
use servion.Base.{
  String, Bool, true, false, not, ◌||◌, ◌&&◌, List, [], ◌∷◌, Option, none, some, ◌≡◌, if◌then◌else◌,
  put,
}
use servion.Text.{is_empty}
use servion.Http.{AuthInfo}
use servion.Auth.{unauthorized, AuthResult, ok, err, Authenticator}
use Values.{Claims, claim_string, claim_string_slice, parse_scope_claim}

-- The signing method that a token names.
pub data Method : Type 0 where
  hmac : Method
  ecdsa : Method
  other : Method

-- What the key function hands to the parser.
pub data Key (PublicKey : Type 0) : Type 0 where
  secret : String → Key PublicKey
  public_key : PublicKey → Key PublicKey

abbrev pub KeyFunc : Type 0 → Type 0
KeyFunc PublicKey = Method → Option (Key PublicKey)

-- jwt.ParserOption, with the expiration required always.
pub record ParserOptions : Type 0 where
  pub issuer : Option String
  pub audience : Option String

-- *jwt.Token: its claims if they are jwt.MapClaims.
pub record Token : Type 0 where
  pub claims : Option Claims
  pub valid : Bool

-- golang-jwt, in a state of the program that holds the time: what Parse returns. A token names a
-- method, and Parse calls the key function with it and verifies the signature by the key.
pub record Library (S PublicKey : Type 0) : Type 0 where
  pub parse : KeyFunc PublicKey → ParserOptions → String → S → Option Token
  pub method : String → Method
  pub signed : Key PublicKey → String → Bool
  pub parse_verifies :
      (key_func : KeyFunc PublicKey) (options : ParserOptions) (token_str : String) (s : S)
      (token : Token)
      → parse key_func options token_str s ≡ some token
      → (key : Key PublicKey) × (key_func (method token_str) ≡ some key)
        × (signed key token_str ≡ true)

-- implJwtAuthProvider, its configured fields.
pub record Config : Type 0 where
  pub secret : String
  pub public_key_b64 : String
  pub issuer : String
  pub audience : String
  pub roles_claim : String
  pub scopes_claim : String

-- The parsed public key, where there is one and it is of ECDSA.
pub data ParsedKey (PublicKey : Type 0) : Type 0 where
  malformed : ParsedKey PublicKey
  of_other_kind : ParsedKey PublicKey
  of_ecdsa : PublicKey → ParsedKey PublicKey

module _ {PublicKey : Type 0} where
  unfoldable pub ecdsa_key_func : PublicKey → KeyFunc PublicKey
  ecdsa_key_func key ecdsa = some (public_key key)
  ecdsa_key_func key _ = none

  unfoldable pub hmac_key_func : String → KeyFunc PublicKey
  hmac_key_func key hmac = some (secret key)
  hmac_key_func key _ = none

  -- PostConstruct: the key function, or none for its errors. `parse_key` decodes the base64 text
  -- and parses the public key in it.
  unfoldable pub post_construct :
      (String → ParsedKey PublicKey) → Config → Option (KeyFunc PublicKey)
  unfolding ecdsa_key_func hmac_key_func
  post_construct parse_key t =
      if is_empty t.secret && is_empty t.public_key_b64
      then none
      else if not (is_empty t.secret) && not (is_empty t.public_key_b64)
      then none
      else if not (is_empty t.public_key_b64)
      then elim (parse_key t.public_key_b64) [
        | malformed ↦ none
        | of_other_kind ↦ none
        | of_ecdsa key ↦ some (ecdsa_key_func key)
      ]
      else some (hmac_key_func t.secret)

abbrev pub given : String → Option String
given value = if is_empty value then none else some value

-- The attributes of the claims that are common.
unfoldable pub attributes : List String → Claims → List (String × String)
attributes [] claims = []
attributes (key ∷ keys) claims =
    let v = claim_string claims key in
    let rest = attributes keys claims in if is_empty v then rest else put key v rest

abbrev pub common_claims : List String
common_claims = "email" ∷ "name" ∷ "preferred_username" ∷ "jti" ∷ []

unfoldable pub info_of : Config → String → Claims → AuthInfo
unfolding attributes
info_of t hashed claims = record {
  hashed_token = hashed;
  subject = claim_string claims "sub";
  scopes = parse_scope_claim claims t.scopes_claim;
  roles = claim_string_slice claims t.roles_claim;
  issuer = claim_string claims "iss";
  attributes = attributes common_claims claims;
}

module _ {S PublicKey : Type 0} (library : Library S PublicKey) (hash_token : String → String) where
  accept : Config → String → Token → AuthResult
  unfolding info_of
  accept t token_str token = elim token.claims [
    | none ↦ err unauthorized "invalid token"
    | some claims ↦
        if token.valid
        then ok (info_of t (hash_token token_str) claims)
        else err unauthorized "invalid token"
  ]

  -- Authenticate
  unfoldable pub authenticate : Config → KeyFunc PublicKey → Authenticator S
  unfolding accept
  authenticate t key_func token_str s =
      elim (library.parse key_func (record { issuer = given t.issuer; audience = given t.audience })
        token_str s) [
          | none ↦ (s, err unauthorized "invalid token")
          | some token ↦ (s, accept t token_str token)
        ]
