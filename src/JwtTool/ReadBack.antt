-- ===== src/JwtTool/ReadBack.antt =====
-- The claims that the tool writes, as the authenticator reads them.
use servion.Base.{
  String, true, false, List, [], ◌∷◌, map, All, Option, none, some, ◌≡◌, refl, ap, ◌∙◌, inl, inr,
  if◌then◌else◌, find, str_eq, Bool-cases,
}
use servion.Base.Int.{ℤ}
use servion.Text.{is_empty, trim_space, join, split, trim_left, trim_right, split_func}
use servion.Jwt.{
  Config, Value, string, array, scalar, Item, text, no_text, texts, claim_string,
  claim_string_slice, parse_scope_claim, info_of, string_of,
}
use servion.Jwt
use servion.Jwt.Scopes.{IsName, claims_of_joined}
use servion.JwtTool.{Flags, split_trim, put_given, standard_claims, Unsigned, build_claims}
use servion.JwtTool.Puts.{
  Names, find-put_given, find-put_given_same, find-put_attrs, build_claims-put_attrs,
}

texts-map : (ws : List String) → texts (map text ws) ≡ ws
unfolding texts
texts-map [] = refl
texts-map (w ∷ ws) = ap (◌∷◌ w) (texts-map ws)

empty_text : (s : String) → is_empty s ≡ true → "" ≡ s
empty_text String.[] e = refl
empty_text (String.◌∷◌ c s) e = cc

-- A claim of one text, of a flag that may be empty.
claim_string_of_flag :
    (claims : Jwt.Claims) (key flag : String)
    → find key claims ≡ (if is_empty flag then none else some (string flag))
    → claim_string claims key ≡ flag
unfolding claim_string string_of
claim_string_of_flag claims key flag e = elim (Bool-cases (is_empty flag)) [
  | inl y ↦ rw (rw y at e, claim_string) (empty_text flag y)
  | inr n ↦ rw (rw n at e, claim_string) refl
]

split_trim_of_empty : (s : String) → is_empty s ≡ true → [] ≡ split_trim s
unfolding split_trim split trim_space trim_left trim_right split_func
split_trim_of_empty String.[] e = refl
split_trim_of_empty (String.◌∷◌ c s) e = cc

roles_of_flag :
    (claims : Jwt.Claims) (flag : String)
    → find "roles" claims
      ≡ (if is_empty flag then none else some (array (map text (split_trim flag))))
    → claim_string_slice claims "roles" ≡ split_trim flag
unfolding claim_string_slice
roles_of_flag claims flag e = elim (Bool-cases (is_empty flag)) [
  | inl y ↦ rw (rw y at e, claim_string_slice) (split_trim_of_empty flag y)
  | inr n ↦ rw (rw n at e, claim_string_slice) (texts-map (split_trim flag))
]

scopes_of_flag :
    (claims : Jwt.Claims) (flag : String)
    → All IsName (split_trim flag)
    → find "scope" claims
      ≡ (if is_empty flag then none else some (string (join (split_trim flag) " ")))
    → parse_scope_claim claims "scope" ≡ split_trim flag
unfolding parse_scope_claim
scopes_of_flag claims flag names e = elim (Bool-cases (is_empty flag)) [
  | inl y ↦ rw (rw y at e, parse_scope_claim) (split_trim_of_empty flag y)
  | inr n ↦ (claims_of_joined claims "scope" " " (split_trim flag) (rw n at e) refl names).0
]

-- The attributes give none of the claims that the authenticator reads from the other flags.
abbrev pub Apart : String → Type 0
Apart attr = Names "sub" attr × Names "iss" attr × Names "roles" attr × Names "scope" attr

All-weaken :
    {P Q : String → Type 0}
    → ((a : String) → P a → Q a)
    → (attrs : List String) → All P attrs
    → All Q attrs
All-weaken f [] h = tt
All-weaken f (a ∷ attrs) (p, h) = (f a p, All-weaken f attrs h)

subject_found :
    (claims : Jwt.Claims) (subject : String)
    → find "sub" claims ≡ some (string subject)
    → claim_string claims "sub" ≡ subject
unfolding claim_string string_of
subject_found claims subject e = rw (e, claim_string) refl

-- The claims before those of the audience, of the roles and of the scopes.
abbrev base_claims : Flags → Jwt.Claims
base_claims t = ("sub", string t.subject) ∷ ("exp", scalar) ∷ ("iat", scalar) ∷ []

abbrev before_audience : Flags → Jwt.Claims
before_audience t = put_given t.issuer "iss" (string t.issuer) (base_claims t)

abbrev before_roles : Flags → Jwt.Claims
before_roles t = put_given t.audience "aud" (string t.audience) (before_audience t)

abbrev before_scopes : Flags → Jwt.Claims
before_scopes t = put_given t.roles "roles" (array (map text (split_trim t.roles))) (before_roles t)

past_scopes :
    (t : Flags) (name : String)
    → str_eq "scope" name ≡ false
    → find name (standard_claims t) ≡ find name (before_scopes t)
unfolding standard_claims
past_scopes t name e =
    find-put_given name t.scopes "scope" (string (join (split_trim t.scopes) " ")) (before_scopes t)
      e

past_roles :
    (t : Flags) (name : String)
    → str_eq "roles" name ≡ false
    → find name (before_scopes t) ≡ find name (before_roles t)
past_roles t name e =
    find-put_given name t.roles "roles" (array (map text (split_trim t.roles))) (before_roles t) e

past_audience :
    (t : Flags) (name : String)
    → str_eq "aud" name ≡ false
    → find name (before_roles t) ≡ find name (before_audience t)
past_audience t name e =
    find-put_given name t.audience "aud" (string t.audience) (before_audience t) e

past_issuer :
    (t : Flags) (name : String)
    → str_eq "iss" name ≡ false
    → find name (before_audience t) ≡ find name (base_claims t)
past_issuer t name e = find-put_given name t.issuer "iss" (string t.issuer) (base_claims t) e

-- What the standard claims hold under the four keys.
standard_claims_found :
    (t : Flags)
    → (find "sub" (standard_claims t) ≡ some (string t.subject))
      × (find "iss" (standard_claims t)
          ≡ (if is_empty t.issuer then none else some (string t.issuer)))
      × (find "roles" (standard_claims t)
          ≡ (if is_empty t.roles then none else some (array (map text (split_trim t.roles)))))
      × (find "scope" (standard_claims t)
          ≡ (if is_empty t.scopes then none else some (string (join (split_trim t.scopes) " "))))
unfolding standard_claims find
standard_claims_found t = (
  past_scopes t "sub" refl
      ∙ past_roles t "sub" refl
      ∙ past_audience t "sub" refl
      ∙ past_issuer t "sub" refl,
  past_scopes t "iss" refl
      ∙ past_roles t "iss" refl
      ∙ past_audience t "iss" refl
      ∙ find-put_given_same t.issuer "iss" (string t.issuer) (base_claims t) refl,
  past_scopes t "roles" refl
      ∙ find-put_given_same t.roles "roles" (array (map text (split_trim t.roles))) (before_roles t)
          (past_audience t "roles" refl ∙ past_issuer t "roles" refl),
  find-put_given_same t.scopes "scope" (string (join (split_trim t.scopes) " ")) (before_scopes t)
      (past_roles t "scope" refl ∙ past_audience t "scope" refl ∙ past_issuer t "scope" refl),
)

-- The claims of the token that the tool signs are read by the authenticator, where its claims of
-- the roles and the scopes are named "roles" and "scope", as the subject, the issuer, the roles and
-- the scopes of the flags, if the scopes are names without white space and no attribute has the
-- name of one of these claims.
pub info_of-build_claims :
    (parse_std : String → Option ℤ) (t : Flags) (cfg : Config) (unsigned : Unsigned)
    (hashed : String)
    → build_claims parse_std t ≡ inr unsigned
    → cfg.roles_claim ≡ "roles"
    → cfg.scopes_claim ≡ "scope"
    → All Apart t.attrs
    → All IsName (split_trim t.scopes)
    → let info = info_of cfg hashed unsigned.claims in
      (info.subject ≡ t.subject)
      × (info.issuer ≡ t.issuer)
      × (info.roles ≡ split_trim t.roles)
      × (info.scopes ≡ split_trim t.scopes)
unfolding info_of
info_of-build_claims parse_std t cfg unsigned hashed b r s apart names =
    let put = build_claims-put_attrs parse_std t unsigned b in
    let (sub, iss, roles, scope) = standard_claims_found t in
    let kept : (key : String)
        → All (Names key) t.attrs
        → find key unsigned.claims ≡ find key (standard_claims t) =
      λ key h. find-put_attrs key t.attrs (standard_claims t) unsigned.claims h put in
    (
      subject_found unsigned.claims t.subject
          (kept "sub" (All-weaken (λ attr a. a.0) t.attrs apart) ∙ sub),
      claim_string_of_flag unsigned.claims "iss" t.issuer
          (kept "iss" (All-weaken (λ attr a. a.1) t.attrs apart) ∙ iss),
      rw r (
          roles_of_flag unsigned.claims t.roles
            (kept "roles" (All-weaken (λ attr a. a.2) t.attrs apart) ∙ roles)),
      rw s (
          scopes_of_flag unsigned.claims t.scopes names
            (kept "scope" (All-weaken (λ attr a. a.3) t.attrs apart) ∙ scope)),
    )
