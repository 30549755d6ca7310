-- ===== src/Cors.antt =====
-- cors_middleware.go
pub mod Laws
mod Examples
use servion.Base.{
  String, Bool, not, true, false, ◌||◌, List, [], ◌∷◌, ◌++◌, any, if◌then◌else◌, str_eq,
}
use servion.Base.Int.{ℤ}
use servion.Text.{is_empty, has_prefix, join}
use servion.Http.{Request, Handler, Op, Middleware, set_header, write_header, get}

-- The configured fields of implCorsMiddleware.
pub record Config : Type 0 where
  pub prefixes : List String
  pub allow_origins : List String
  pub allow_methods : List String
  pub allow_headers : List String
  pub expose_headers : List String
  pub allow_creds : Bool
  pub max_age : String

-- isOriginAllowed
unfoldable pub is_origin_allowed : Config → String → Bool
is_origin_allowed cfg origin = any (λ o. str_eq o "*" || str_eq o origin) cfg.allow_origins

-- The headers of every answer to an allowed origin.
exposed : List String → List Op
exposed [] = []
exposed (h ∷ hs) = set_header "Access-Control-Expose-Headers" (join (h ∷ hs) ", ") ∷ []

unfoldable pub origin_ops : Config → String → List Op
unfolding exposed
origin_ops cfg origin =
    set_header "Access-Control-Allow-Origin" origin
      ∷ (if cfg.allow_creds then set_header "Access-Control-Allow-Credentials" "true" ∷ [] else [])
    ++ exposed cfg.expose_headers

unfoldable pub preflight_ops : Config → List Op
preflight_ops cfg =
    set_header "Access-Control-Allow-Methods" (join cfg.allow_methods ", ")
    ∷ set_header "Access-Control-Allow-Headers" (join cfg.allow_headers ", ")
    ∷ set_header "Access-Control-Max-Age" cfg.max_age
    ∷ write_header 204
    ∷ []

-- Match
unfoldable pub applies : Config → String → Bool
applies cfg prefix = any (λ p. has_prefix prefix p) cfg.prefixes

module _ {S : Type 0} (cfg : Config) where
  unfoldable pub middleware : Handler S → Handler S
  unfolding is_origin_allowed origin_ops preflight_ops
  middleware next r s =
      let origin = get "Origin" r.header in
      if is_empty origin
      then next r s
      else if not (is_origin_allowed cfg origin)
      then next r s
      else if str_eq r.method "OPTIONS"
      then (s, origin_ops cfg origin ++ preflight_ops cfg)
      else let (s', ops) = next r s in (s', origin_ops cfg origin ++ ops)

  unfoldable pub cors_middleware : ℤ → Middleware S
  unfolding middleware applies
  cors_middleware order = record { bean_order = order; applies = applies cfg; wrap = middleware }
