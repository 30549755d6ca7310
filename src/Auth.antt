-- ===== src/Auth.antt =====
-- api.go, Authenticator and the identity in the context; auth_middleware.go, the bearer gate.
pub mod Gate
pub mod Bearer
pub mod Tokens
mod Examples
use servion.Base.{
  ℕ, String, Bool, true, false, ◌&&◌, List, [], ◌∷◌, ◌++◌, Option, none, some, any, if◌then◌else◌,
  str_eq,
}
use servion.Base.Int.{ℤ}
use servion.Text.{is_empty, has_prefix, fields, equal_fold}
use servion.Http.{Request, Handler, Op, AuthInfo, Middleware, set_header, error, get}

-- What errors.Is finds of an error: ErrUnauthorized first, then ErrServiceUnavailable.
pub data ErrorKind : Type 0 where
  unauthorized unavailable other : ErrorKind

-- The results of Authenticate: an error has its text.
pub data AuthResult : Type 0 where
  ok : AuthInfo → AuthResult
  err : ErrorKind → String → AuthResult

-- Authenticator: an implementation may read and change the state.
abbrev pub Authenticator : Type 0 → Type 0
Authenticator S = String → S → S × AuthResult

-- The two fields of "Bearer <token>".
two_fields : List String → Option String
two_fields [] = none
two_fields (scheme ∷ []) = none
two_fields (scheme ∷ token ∷ []) = if equal_fold scheme "Bearer" then some token else none
two_fields (scheme ∷ token ∷ _ ∷ _) = none

unfoldable pub bearer_token : String → Option String
unfolding two_fields
bearer_token h = two_fields (fields h)

unfoldable pub challenge : String → List Op
challenge message = set_header "WWW-Authenticate" "Bearer" ∷ error message 401

unfoldable pub refusal : ErrorKind → String → List Op
unfolding challenge
refusal unauthorized message = challenge message
refusal unavailable message = error message 503
refusal other message = error message 500

-- The configured fields of implAuthMiddleware.
pub record Config : Type 0 where
  pub prefixes : List String

-- Match
unfoldable pub applies : Config → String → Bool
applies cfg prefix = any (λ p. has_prefix prefix p) cfg.prefixes

module _ {S : Type 0} (authenticate : Authenticator S) where
  -- ContextWithAuth, and the handler behind it; or the refusal.
  unfoldable pub finish : Handler S → Request → S × AuthResult → S × List Op
  unfolding refusal
  finish next r (s, ok info) = next (record r { auth = some info }) s
  finish next r (s, err kind message) = (s, refusal kind message)

  unfoldable pub middleware : Handler S → Handler S
  unfolding bearer_token finish challenge
  middleware next r s =
      if str_eq r.method "OPTIONS"
      then next r s
      else let h = get "Authorization" r.header in
        if is_empty h
        then (s, challenge "Authorization header is missing")
        else elim (bearer_token h) [
          | none ↦ (s, challenge "invalid Authorization header")
          | some token ↦ finish next r (authenticate token s)
        ]

  unfoldable pub auth_middleware : Config → ℤ → Middleware S
  unfolding middleware applies
  auth_middleware cfg order = record {
    bean_order = order;
    applies = applies cfg;
    wrap = middleware;
  }
