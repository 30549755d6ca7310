-- ===== src/JwtTool/Puts.antt =====
-- What the tool puts into its claims.
use servion.Base.{
  String, false, not, ◌&&◌, List, [], ◌∷◌, All, Option, none, some, ◌≡◌, ◌≢◌, refl, ap, sym, ◌∙◌,
  inl, inr, ◌⊎◌, if◌then◌else◌, find, put, find-put, str_eq, str_eq-false, Bool-cases, Option-cases,
  eq_refl,
}
use servion.Base.Int.{ℤ}
use servion.Text.{is_empty, trim_space}
use servion.Jwt.{
  Config, Value, string, array, scalar, Item, text, no_text, texts, claim_string,
  claim_string_slice, parse_scope_claim, info_of, string_of,
}
use servion.Jwt
use servion.Jwt.Keys.{none-some}
use servion.JwtTool.Durations.{parse_duration}
use servion.JwtTool.{
  Flags, cut, put_given, standard_claims, put_attrs, Fatal, Unsigned, build_claims,
}

-- An attribute has another name than the claim.
abbrev pub Names : String → String → Type 0
Names key attr = (k v : String) → cut (trim_space attr) ≡ some (k, v) → trim_space k ≢ key

-- A claim of another flag.
pub find-put_given :
    (name flag key : String) (value : Value) (claims : Jwt.Claims)
    → str_eq key name ≡ false
    → find name (put_given flag key value claims) ≡ find name claims
unfolding put_given
find-put_given name flag key value claims o = elim (Bool-cases (is_empty flag)) [
  | inl y ↦ rw y refl
  | inr n ↦ rw n (find-put key name value claims ∙ rw o refl)
]

-- The claim of the flag itself.
pub find-put_given_same :
    (flag key : String) (value : Value) (claims : Jwt.Claims)
    → find key claims ≡ none
    → find key (put_given flag key value claims) ≡ (if is_empty flag then none else some value)
unfolding put_given
find-put_given_same flag key value claims e = elim (Bool-cases (is_empty flag)) [
  | inl y ↦ rw y e
  | inr n ↦ rw n (find-put key key value claims ∙ rw (eq_refl key) refl)
]

or_claims : Jwt.Claims → Option Jwt.Claims → Jwt.Claims
or_claims d none = d
or_claims d (some claims) = claims

some-injective : {a b : Jwt.Claims} → some a ≡ some b → a ≡ b
unfolding or_claims
some-injective {a} e = ap (or_claims a) e

pub find-put_attrs :
    (key : String) (attrs : List String) (claims claims' : Jwt.Claims)
    → All (Names key) attrs
    → put_attrs attrs claims ≡ some claims'
    → find key claims' ≡ find key claims
unfolding put_attrs
find-put_attrs key [] claims claims' h e = ap (find key) (sym (some-injective e))
find-put_attrs key (attr ∷ attrs) claims claims' (n, h) e =
    elim (Option-cases (cut (trim_space attr))) [
      | inl c ↦ absurd (none-some (rw (c, put_attrs) at e))
      | inr ((k, v), c) ↦
          find-put_attrs key attrs (put (trim_space k) (string (trim_space v)) claims) claims' h
            (rw (c, put_attrs) at e)
          ∙ find-put (trim_space k) key (string (trim_space v)) claims
          ∙ rw (str_eq-false (trim_space k) key (n k v c)) refl
    ]

inl-inr : {e : Fatal} {u : Unsigned} → inl e ≡ inr u → ⊥
inl-inr e = cc

claims_of : Fatal ⊎ Unsigned → Option Jwt.Claims
claims_of (inl e) = none
claims_of (inr unsigned) = some unsigned.claims

pub build_claims-put_attrs :
    (parse_std : String → Option ℤ) (t : Flags) (unsigned : Unsigned)
    → build_claims parse_std t ≡ inr unsigned
    → put_attrs t.attrs (standard_claims t) ≡ some unsigned.claims
unfolding build_claims claims_of
build_claims-put_attrs parse_std t unsigned e =
    elim (Bool-cases (is_empty t.private_key && is_empty t.secret)) [
      | inl y ↦ absurd (inl-inr (rw y at e))
      | inr y ↦ elim (Bool-cases (not (is_empty t.private_key) && not (is_empty t.secret))) [
        | inl z ↦ absurd (inl-inr (rw (y, z) at e))
        | inr z ↦ elim (Bool-cases (is_empty t.subject)) [
          | inl w ↦ absurd (inl-inr (rw (y, z, w) at e))
          | inr w ↦ elim (Option-cases (parse_duration parse_std t.expiry)) [
            | inl d ↦ absurd (inl-inr (rw (y, z, w, d) at e))
            | inr (dur, d) ↦ elim (Option-cases (put_attrs t.attrs (standard_claims t))) [
              | inl a ↦ absurd (inl-inr (rw (y, z, w, d, a) at e))
              | inr (claims, a) ↦ a ∙ ap claims_of (rw (y, z, w, d, a) at e)
            ]
          ]
        ]
      ]
    ]
