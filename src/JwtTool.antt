-- ===== src/JwtTool.antt =====
-- cmd/jwttool/main.go: the tool that makes keys and tokens. Standard input is its lines; what is
-- printed while the tool asks, and the text of the usage, are left out. pflag, time.ParseDuration,
-- the keys and the signatures are arguments.
pub mod Durations
pub mod Puts
pub mod Commands
pub mod ReadBack
pub mod Days
mod Examples
use Prim.Native.String.{[], ◌∷◌}
use Prim.Native.String
use servion.Base.{
  ℕ, ◌*◌, suc, zero, String, Char, code, Bool, true, false, not, ◌&&◌, ◌||◌, List, [], ◌∷◌, map,
  Option, none, some, ◌⊎◌, inl, inr, if◌then◌else◌, ◌==◌, str_eq, select, put,
}
use servion.Base.Int.{ℤ}
use servion.Text.{is_empty, split, trim_space, join}
use servion.Jwt.{Value, string, array, scalar, Item, text}
use servion.Jwt
use Durations.{parse_duration}

-- The flags of generate-token.
pub record Flags : Type 0 where
  pub private_key : String
  pub secret : String
  pub subject : String
  pub issuer : String
  pub audience : String
  pub roles : String
  pub scopes : String
  pub expiry : String
  pub attrs : List String
  pub interactive : Bool

-- readLine: at the end of the input it is empty.
unfoldable pub read_line : List String → String × List String
read_line [] = ("", [])
read_line (line ∷ lines) = (trim_space line, lines)

-- A flag that is asked for if it has no value.
unfoldable pub ask : String → List String → String × List String
unfolding read_line
ask value lines = if is_empty value then read_line lines else (value, lines)

ask_key : Flags → List String → Flags × List String
unfolding read_line
ask_key t lines =
    let (method, lines') = read_line lines in
    let (key, lines'') = read_line lines' in
    if not (is_empty t.private_key && is_empty t.secret)
    then (t, lines)
    else if is_empty method || str_eq method "ecdsa"
    then (record t { private_key = key }, lines'')
    else (record t { secret = key }, lines'')

ask_attrs : Flags → List String → Flags × List String
unfolding read_line
ask_attrs t lines = elim t.attrs [
  | [] ↦
      let (line, lines') = read_line lines in
      (if is_empty line then t else record t { attrs = split line b',' }, lines')
  | _ ∷ _ ↦ (t, lines)
]

-- The interactive mode.
unfoldable pub interact : Flags → List String → Flags
unfolding ask_key ask ask_attrs read_line
interact t lines =
    let (t', lines) = ask_key t lines in
    let (subject, lines) = ask t'.subject lines in
    let (issuer, lines) = ask t'.issuer lines in
    let (audience, lines) = ask t'.audience lines in
    let (roles, lines) = ask t'.roles lines in
    let (scopes, lines) = ask t'.scopes lines in
    let (t'', lines) = ask_attrs t' lines in
    let (expiry, _) = read_line lines in
    record t'' {
      subject = subject;
      issuer = issuer;
      audience = audience;
      roles = roles;
      scopes = scopes;
      expiry = if is_empty expiry then t''.expiry else expiry;
    }

-- splitTrim
unfoldable pub split_trim : String → List String
split_trim s = select (λ part. not (is_empty part)) (map trim_space (split s b','))

before_cut : Char → Option (String × String) → Option (String × String)
before_cut c none = none
before_cut c (some (k, v)) = some (String.◌∷◌ c k, v)

-- strings.Cut by "=".
unfoldable pub cut : String → Option (String × String)
unfolding before_cut
cut [] = none
cut (c ∷ s) = let rest = before_cut c (cut s) in if code c == b'=' then some ("", s) else rest

-- claims[key] = value, if the flag has a value.
unfoldable pub put_given : String → String → Value → Jwt.Claims → Jwt.Claims
put_given flag key value claims = if is_empty flag then claims else put key value claims

-- The claims before the attributes. `exp` and `iat` are numbers; a nil slice is an array without
-- members, which golang-jwt writes as null.
unfoldable pub standard_claims : Flags → Jwt.Claims
unfolding put_given split_trim
standard_claims t =
    let claims : Jwt.Claims = ("sub", string t.subject) ∷ ("exp", scalar) ∷ ("iat", scalar) ∷ [] in
    let claims = put_given t.issuer "iss" (string t.issuer) claims in
    let claims = put_given t.audience "aud" (string t.audience) claims in
    let claims = put_given t.roles "roles" (array (map text (split_trim t.roles))) claims in
    put_given t.scopes "scope" (string (join (split_trim t.scopes) " ")) claims

-- The loop over the attributes: none for one without "=".
unfoldable pub put_attrs : List String → Jwt.Claims → Option Jwt.Claims
unfolding cut
put_attrs [] claims = some claims
put_attrs (attr ∷ attrs) claims = elim (cut (trim_space attr)) [
  | none ↦ none
  | some (k, v) ↦ put_attrs attrs (put (trim_space k) (string (trim_space v)) claims)
]

-- What fatal says.
pub data Fatal : Type 0 where
  no_key two_keys no_subject invalid_expiry invalid_attribute not_signed not_generated
        not_marshalled :
      Fatal

-- What is signed: its claims, with the time of life that `exp` has.
pub record Unsigned : Type 0 where
  pub claims : Jwt.Claims
  pub lifetime : ℤ

module _ (parse_std : String → Option ℤ) where
  -- From the flags to the claims.
  unfoldable pub build_claims : Flags → Fatal ⊎ Unsigned
  unfolding standard_claims put_attrs
  build_claims t =
      if is_empty t.private_key && is_empty t.secret
      then inl no_key
      else if not (is_empty t.private_key) && not (is_empty t.secret)
      then inl two_keys
      else if is_empty t.subject
      then inl no_subject
      else elim (parse_duration parse_std t.expiry) [
        | none ↦ inl invalid_expiry
        | some dur ↦ elim (put_attrs t.attrs (standard_claims t)) [
          | none ↦ inl invalid_attribute
          | some claims ↦ inr (record { claims = claims; lifetime = dur })
        ]
      ]

  module _ {EcKey : Type 0} (private_key_of : String → Option EcKey)
      (sign : EcKey ⊎ String → Unsigned → Option String) where
    -- signECDSA, behind base64 and x509, and signHMAC: none is the error.
    sign_by : Flags → Unsigned → Option String
    sign_by t unsigned =
        if not (is_empty t.private_key)
        then elim (private_key_of t.private_key) [
          | none ↦ none
          | some key ↦ sign (inl key) unsigned
        ]
        else sign (inr t.secret) unsigned

    -- cmdGenerateToken
    unfoldable pub generate_token : Flags → List String → Fatal ⊎ String
    unfolding build_claims sign_by interact
    generate_token flags lines =
        let t = if flags.interactive then interact flags lines else flags in
        elim (build_claims t) [
          | inl e ↦ inl e
          | inr unsigned ↦ elim (sign_by t unsigned) [
            | none ↦ inl not_signed
            | some token ↦ inr token
          ]
        ]
