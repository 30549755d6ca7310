-- ===== src/Jwt/Keys.antt =====
-- Which keys an accepted token was verified by.
use servion.Base.{
  String, true, false, Option, none, some, ◌⊎◌, inl, inr, ◌≡◌, refl, sym, ap, subst, Bool-cases,
  Option-cases,
}
use servion.Text.{is_empty}
use servion.Http.{AuthInfo}
use servion.Auth.{ErrorKind, ok, err}
use servion.Jwt.{
  Method, hmac, ecdsa, other, Key, secret, public_key, KeyFunc, Config, ParsedKey, malformed,
  of_other_kind, of_ecdsa, Library, ecdsa_key_func, hmac_key_func, post_construct, authenticate,
  given, ParserOptions,
}

or_else : {A : Type 0} → A → Option A → A
or_else d none = d
or_else d (some a) = a

some-injective : {A : Type 0} {a b : A} → some a ≡ some b → a ≡ b
unfolding or_else
some-injective {a = a} e = ap (or_else a) e

err-ok : {kind : ErrorKind} {message : String} {info : AuthInfo} → err kind message ≡ ok info → ⊥
err-ok e = cc

pub none-some : {A : Type 0} {a : A} → none ≡ some a → ⊥
none-some e = cc

ParsedKey-cases :
    {PublicKey : Type 0} (p : ParsedKey PublicKey)
    → (p ≡ malformed) ⊎ ((p ≡ of_other_kind) ⊎ ((key : PublicKey) × (p ≡ of_ecdsa key)))
ParsedKey-cases malformed = inl refl
ParsedKey-cases of_other_kind = inr (inl refl)
ParsedKey-cases (of_ecdsa key) = inr (inr (key, refl))

module _ {S PublicKey : Type 0} (library : Library S PublicKey)
    (parse_key : String → ParsedKey PublicKey) where
  -- Either the secret is configured alone, the token names HMAC and is signed by the secret; or a
  -- public key is configured alone, the token names ECDSA and is signed by that key.
  abbrev pub Verified : Config → String → Type 0
  Verified t raw =
      ((is_empty t.secret ≡ false)
        × (is_empty t.public_key_b64 ≡ true)
        × (library.method raw ≡ hmac)
        × (library.signed (secret t.secret) raw ≡ true))
      ⊎ ((is_empty t.secret ≡ true)
          × (is_empty t.public_key_b64 ≡ false)
          × ((key : PublicKey) × (parse_key t.public_key_b64 ≡ of_ecdsa key)
              × (library.method raw ≡ ecdsa)
              × (library.signed (public_key key) raw ≡ true)))

  hmac_of_key :
      (value : String) (m : Method) (key : Key PublicKey)
      → hmac_key_func value m ≡ some key
      → (m ≡ hmac) × (key ≡ secret value)
  unfolding hmac_key_func
  hmac_of_key value hmac key e = (refl, sym (some-injective e))
  hmac_of_key value ecdsa key e = cc
  hmac_of_key value other key e = cc

  ecdsa_of_key :
      (value : PublicKey) (m : Method) (key : Key PublicKey)
      → ecdsa_key_func value m ≡ some key
      → (m ≡ ecdsa) × (key ≡ public_key value)
  unfolding ecdsa_key_func
  ecdsa_of_key value hmac key e = cc
  ecdsa_of_key value ecdsa key e = (refl, sym (some-injective e))
  ecdsa_of_key value other key e = cc

  -- The key that the parser verified the token by.
  abbrev VerifiedBy : KeyFunc PublicKey → String → Type 0
  VerifiedBy key_func raw =
      (key : Key PublicKey) × (key_func (library.method raw) ≡ some key)
      × (library.signed key raw ≡ true)

  authenticate-VerifiedBy :
      (hash_token : String → String) (t : Config) (key_func : KeyFunc PublicKey) (raw : String)
      (s : S) (info : AuthInfo)
      → (authenticate library hash_token t key_func raw s).1 ≡ ok info
      → VerifiedBy key_func raw
  unfolding authenticate
  authenticate-VerifiedBy hash_token t key_func raw s info e =
      let options : ParserOptions = record {
        issuer = given t.issuer;
        audience = given t.audience;
      } in
      elim (Option-cases (library.parse key_func options raw s)) [
        | inl n ↦ absurd (err-ok (rw (n, authenticate) at e))
        | inr (token, p) ↦ library.parse_verifies key_func options raw s token p
      ]

  hmac-Verified :
      (t : Config) (raw : String)
      → is_empty t.secret ≡ false
      → is_empty t.public_key_b64 ≡ true
      → VerifiedBy (hmac_key_func t.secret) raw
      → Verified t raw
  hmac-Verified t raw a b (key, k, v) =
      let (m, same) = hmac_of_key t.secret (library.method raw) key k in inl (a, b, m, rw same at v)

  ecdsa-Verified :
      (t : Config) (raw : String) (pub_key : PublicKey)
      → is_empty t.secret ≡ true
      → is_empty t.public_key_b64 ≡ false
      → parse_key t.public_key_b64 ≡ of_ecdsa pub_key
      → VerifiedBy (ecdsa_key_func pub_key) raw
      → Verified t raw
  ecdsa-Verified t raw pub_key a b p (key, k, v) =
      let (m, same) = ecdsa_of_key pub_key (library.method raw) key k in
      inr (a, b, (pub_key, p, m, rw same at v))

  -- A provider that PostConstruct set up accepts a token only if exactly one of the secret and the
  -- public key is configured, the token names the method of that key, HMAC for the secret and ECDSA
  -- for the public key, and its signature is verified by that key.
  pub authenticate-Verified :
      (hash_token : String → String) (t : Config) (key_func : KeyFunc PublicKey) (raw : String)
      (s : S) (info : AuthInfo)
      → post_construct parse_key t ≡ some key_func
      → (authenticate library hash_token t key_func raw s).1 ≡ ok info
      → Verified t raw
  unfolding post_construct
  authenticate-Verified hash_token t key_func raw s info c e =
      let by = authenticate-VerifiedBy hash_token t key_func raw s info e in
      elim (Bool-cases (is_empty t.secret)) [
        | inl a ↦ elim (Bool-cases (is_empty t.public_key_b64)) [
          | inl b ↦ absurd (none-some (rw (a, b, post_construct) at c))
          | inr b ↦ elim (ParsedKey-cases (parse_key t.public_key_b64)) [
            | inl p ↦ absurd (none-some (rw (a, b, p, post_construct) at c))
            | inr (inl p) ↦ absurd (none-some (rw (a, b, p, post_construct) at c))
            | inr (inr (key, p)) ↦ ecdsa-Verified t raw key a b p (
                subst (λ f. VerifiedBy f raw)
                  (sym (some-injective (rw (a, b, p, post_construct) at c))) by)
          ]
        ]
        | inr a ↦ elim (Bool-cases (is_empty t.public_key_b64)) [
          | inl b ↦ hmac-Verified t raw a b (
              subst (λ f. VerifiedBy f raw) (sym (some-injective (rw (a, b, post_construct) at c)))
                by)
          | inr b ↦ absurd (none-some (rw (a, b, post_construct) at c))
        ]
      ]
