-- ===== src/Auth/Tokens.antt =====
-- auth_token_provider.go: a fixed list of tokens, of which only hashes are kept. SHA-256 with hex
-- digits is the argument `hash_token`.

use servion.Base.{
  String, Bool, true, false, not, ◌&&◌, List, [], ◌∷◌, Option, none, some, ◌≡◌, ◌↔◌, refl, All, ap,
  ◌∙◌, subst, inl, inr, arith, any, if◌then◌else◌, str_eq, eq_iff, find, put, find-put, Bool-cases,
  Option-cases,
}
use servion.Text.{is_empty, trim_space, contains}
use servion.Http.{AuthInfo}
use servion.Auth.{AuthResult, ok, err, unauthorized, Authenticator}

-- implAuthTokenProvider
pub record Provider : Type 0 where
  pub allowed : List (String × AuthInfo)
  pub tokens : List String

abbrev pub invalid_token : String
invalid_token = "invalid token"

contains_of_empty : (s : String) → is_empty s ≡ true → contains s "," ≡ false
unfolding contains
contains_of_empty String.[] e = refl
contains_of_empty (String.◌∷◌ c s) e = cc

module _ (hash_token : String → String) where
  abbrev pub identity : String → AuthInfo
  identity hashed = record {
    hashed_token = hashed;
    subject = hashed;
    scopes = [];
    roles = [];
    issuer = "";
    attributes = [];
  }

  -- The loop of PostConstruct: none is its error, "token must not contain comma".
  allow : List String → List (String × AuthInfo) → Option (List (String × AuthInfo))
  allow [] allowed = some allowed
  allow (raw ∷ tokens) allowed =
      let token = trim_space raw in
      let skipped = allow tokens allowed in
      let stored = allow tokens (put (hash_token token) (identity (hash_token token)) allowed) in
      if is_empty token then skipped else if contains token "," then none else stored

  -- PostConstruct; the raw tokens are cleared.
  unfoldable pub post_construct : Provider → Option Provider
  unfolding allow
  post_construct p = elim (allow p.tokens p.allowed) [
    | none ↦ none
    | some allowed ↦ some (record { allowed = allowed; tokens = [] })
  ]

  -- Authenticate
  unfoldable pub authenticate : {S : Type 0} → Provider → Authenticator S
  authenticate p token s = elim (find (hash_token token) p.allowed) [
    | none ↦ (s, err unauthorized invalid_token)
    | some info ↦ (s, ok info)
  ]

  -- The token is one of the configured ones, without the white space around them.
  abbrev pub holds_token : String → List String → Bool
  holds_token token raws =
      any (λ raw. not (is_empty (trim_space raw)) && str_eq (trim_space raw) token) raws

  -- The answer to a token that is accepted or not.
  abbrev pub answer : String → Bool → AuthResult
  answer token true = ok (identity (hash_token token))
  answer token false = err unauthorized invalid_token

  -- Every entry is the identity of its key.
  abbrev entry_for : Bool → String → Option AuthInfo
  entry_for true token = some (identity (hash_token token))
  entry_for false token = none

  -- No configured token collides with the presented one.
  abbrev pub NoCollision : String → List String → Type 0
  NoCollision token raws =
      All (λ raw. hash_token (trim_space raw) ≡ hash_token token → trim_space raw ≡ token) raws

  stored :
      (token key : String) (m : List (String × AuthInfo)) (known : Bool)
      → (hash_token key ≡ hash_token token → key ≡ token)
      → find (hash_token token) m ≡ entry_for known token
      → find (hash_token token) (put (hash_token key) (identity (hash_token key)) m)
        ≡ entry_for (if known then true else str_eq key token) token
  stored token key m known apart h = ground (
    arith,
    find-put (hash_token key) (hash_token token) (identity (hash_token key)) m,
    eq_iff (hash_token key) (hash_token token),
    eq_iff key token,
  )

  allow-entry_for :
      (token : String) (raws : List String) (m n : List (String × AuthInfo)) (known : Bool)
      → NoCollision token raws
      → allow raws m ≡ some n
      → find (hash_token token) m ≡ entry_for known token
      → find (hash_token token) n ≡ entry_for (if known then true else holds_token token raws) token
  unfolding allow
  allow-entry_for token [] m n true _ e h = ground arith
  allow-entry_for token [] m n false _ e h = ground arith
  allow-entry_for token (raw ∷ raws) m n known (apart, c) e h =
      elim (Bool-cases (is_empty (trim_space raw))) [
        | inl blank ↦ rw blank (allow-entry_for token raws m n known c (rw blank at e) h)
        | inr full ↦ elim (Bool-cases (contains (trim_space raw) ",")) [
          | inl bad ↦ ground arith
          | inr good ↦
              let key = trim_space raw in
              let kept = put (hash_token key) (identity (hash_token key)) m in
              let rest : allow raws kept ≡ some n = ground arith in
              rw full (
                subst (λ (b : Bool). find (hash_token token) n ≡ entry_for b token) (ground arith)
                  (allow-entry_for token raws kept n (if known then true else str_eq key token) c
                    rest (stored token key m known apart h)))
        ]
      ]

  allow-comma :
      (raws : List String) (m : List (String × AuthInfo))
      → (allow raws m ≡ none) ↔ (any (λ raw. contains (trim_space raw) ",") raws ≡ true)
  unfolding allow
  allow-comma [] m = (λ e. cc, λ e. cc)
  allow-comma (raw ∷ raws) m =
      let key = trim_space raw in
      let kept = put (hash_token key) (identity (hash_token key)) m in
      ground (arith, allow-comma raws m, allow-comma raws kept, contains_of_empty key)

  -- The configured tokens are refused exactly when one of them, without the white space around it,
  -- holds a comma.
  pub post_construct-comma :
      (p : Provider)
      → (post_construct p ≡ none) ↔ (any (λ raw. contains (trim_space raw) ",") p.tokens ≡ true)
  unfolding post_construct
  post_construct-comma p = ground (arith, allow-comma p.tokens p.allowed)

  find-nil : (token : String) → find {V = AuthInfo} (hash_token token) [] ≡ none
  unfolding find
  find-nil token = refl

  stored_tokens :
      (p q : Provider)
      → post_construct p ≡ some q
      → (n : List (String × AuthInfo)) × (allow p.tokens p.allowed ≡ some n)
        × (q ≡ record { allowed = n; tokens = [] })
  unfolding post_construct
  stored_tokens p q e = elim (Option-cases (allow p.tokens p.allowed)) [
    | inl none_stored ↦ ground arith
    | inr (n, done) ↦ (n, done, ground arith)
  ]

  authenticate_found :
      {S : Type 0} (p : Provider) (token : String) (s : S) (b : Bool)
      → find (hash_token token) p.allowed ≡ entry_for b token
      → authenticate p token s ≡ (s, answer token b)
  unfolding authenticate
  authenticate_found p token s true e = rw (e, authenticate)
  authenticate_found p token s false e = rw (e, authenticate)

  -- A provider that starts empty and takes its configured tokens keeps none of them, and then
  -- accepts exactly the tokens among them, compared without the white space around the configured
  -- ones; an accepted token's identity is its hash. No configured token may have the hash of
  -- another token that is presented.
  pub authenticate_listed :
      {S : Type 0} (p q : Provider) (token : String) (s : S)
      → p.allowed ≡ []
      → post_construct p ≡ some q
      → NoCollision token p.tokens
      → (q.tokens ≡ []) × (authenticate q token s ≡ (s, answer token (holds_token token p.tokens)))
  unfolding post_construct
  authenticate_listed p q token s none_yet e apart =
      let (n, allowed_all, same) = stored_tokens p q e in
      let start : find (hash_token token) p.allowed ≡ none = rw none_yet (find-nil token) in
      let known = allow-entry_for token p.tokens p.allowed n false apart allowed_all start in
      (
        ap (λ r. r.tokens) same,
        authenticate_found q token s (holds_token token p.tokens)
            (ap (λ r. find (hash_token token) r.allowed) same ∙ known),
      )
