-- ===== src/Grpc/Prefixes.antt =====
-- The prefixes of methods that need no token.

use servion.Base.{
  String, true, false, not, List, [], ◌∷◌, ◌++◌, map, ◌≡◌, ◌⊎◌, inl, inr, refl, subst, any, select,
  str_eq, Bool-cases, arith, eq_refl, eq_iff,
}
use servion.Text.{is_empty, has_prefix, split, trim_space}
use servion.Grpc.{default_auth_exempt, post_construct, is_exempt}

abbrev pub Among : String → List String → Type 0
Among p ps = any (λ q. str_eq q p) ps ≡ true

prefix-Among :
    (ps : List String) (m : String)
    → is_exempt ps m ≡ true
    → (p : String) × (has_prefix m p ≡ true) × Among p ps
unfolding is_exempt
prefix-Among [] m e = cc
prefix-Among (p ∷ ps) m e = elim (Bool-cases (has_prefix m p)) [
  | inl y ↦ (p, y, ground (arith, eq_refl p))
  | inr n ↦ let (q, h, a) = prefix-Among ps m (rw n at e) in (q, h, ground arith)
]

any-select-not_empty :
    (p : String) (ps : List String)
    → Among p (select (λ q. not (is_empty q)) ps)
    → (is_empty p ≡ false) × Among p ps
any-select-not_empty p [] a = cc
any-select-not_empty p (q ∷ ps) a = elim (Bool-cases (is_empty q)) [
  | inl y ↦ let (n, b) = any-select-not_empty p ps (rw y at a) in (n, ground arith)
  | inr n ↦ elim (Bool-cases (str_eq q p)) [
    | inl same ↦ (subst (λ w. is_empty w ≡ false) ((eq_iff q p).0 same) n, rw same refl)
    | inr other ↦
        let (m, b) = any-select-not_empty p ps (rw other at (rw n at a)) in (m, rw other b)
  ]
]

-- A prefix that configures the interceptor: one of its own, or a part of the property that is not
-- blank.
abbrev pub Configured : String → String → Type 0
Configured listed p = Among p default_auth_exempt ⊎ Among p (map trim_space (split listed b','))

pub prefix-Configured :
    (listed m : String)
    → is_exempt (post_construct listed) m ≡ true
    → (p : String) × (is_empty p ≡ false) × (has_prefix m p ≡ true) × Configured listed p
unfolding post_construct
prefix-Configured listed m e =
    let (p, h, a) = prefix-Among (post_construct listed) m e in
    elim (Bool-cases (any (λ q. str_eq q p) default_auth_exempt)) [
      | inl d ↦ (p, default_not_empty p d, h, inl d)
      | inr d ↦
          let (n, b) =
            any-select-not_empty p (map trim_space (split listed b',')) (drop_defaults p _ d a) in
          (p, n, h, inr b)
    ]
  where
    default_not_empty : (p : String) → Among p default_auth_exempt → is_empty p ≡ false
    default_not_empty String.[] d = cc
    default_not_empty (String.◌∷◌ c s) d = refl

    drop_defaults :
        (p : String) (ps : List String)
        → any (λ q. str_eq q p) default_auth_exempt ≡ false
        → Among p (default_auth_exempt ++ ps)
        → Among p ps
    drop_defaults p ps d a = ground arith
