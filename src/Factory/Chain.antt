-- ===== src/Factory/Chain.antt =====
-- The chain of middlewares that the factory builds, with the middlewares of this program in it.
use servion.Base.{
  ℕ, String, true, List, [], ◌∷◌, ◌++◌, All, some, ◌≡◌, ◌≢◌, refl, ap, sym, subst, ◌∙◌, inl, inr,
  Bool-cases, Option-cases,
}
use servion.Base.Int.{ℤ}
use servion.Http.{Request, AuthInfo, Handler, Middleware, Cell, Clock, get, del, same_key}
use servion.Http.Laws.{get-del}
use servion.Factory.{wrap_all}
use servion.Auth.{ErrorKind, AuthResult, ok, err, Authenticator, bearer_token, auth_middleware}
use servion.Auth.Gate.{middleware_gate}
use servion.RateLimit.{Buckets}
use servion.RateLimit.Middleware.{rate_limiter, client_of, limit_client}
use servion.Gzip.{
  Codec, gzip_middleware, is_gzipped, decompress_request, compress_response, accepts_gzip,
}
use servion.Cors.{cors_middleware}
use servion.RequestId.{request_id_middleware, request_id_of}
use servion.AccessLog.{Entry, access_log_middleware}
use servion.Metrics.{Registry, metrics_middleware}
use servion.Metrics
use servion.Auth
use servion.RateLimit
use servion.Gzip
use servion.Cors
use servion.RequestId
use servion.AccessLog

ok-err : {info : AuthInfo} {kind : ErrorKind} {message : String} → ok info ≡ err kind message → ⊥
ok-err e = cc

-- The request that the gzip middleware passes on.
abbrev decompressed : List ℕ → Request → Request
decompressed p r = record r {
  body = p;
  header = del "Content-Length" (del "Content-Encoding" r.header);
}

module _ {S : Type 0} where
  -- One of the program's middlewares, however it is configured.
  pub data Standard : Middleware S → Type 1 where
    limiter :
        (cfg : RateLimit.Config) (buckets : Cell S Buckets) (clock : Clock S) (order : ℤ)
        → Standard (rate_limiter cfg buckets clock order)
    bearer :
        (other : Authenticator S) (cfg : Auth.Config) (order : ℤ)
        → Standard (auth_middleware other cfg order)
    gzip :
        (codec : Codec) (cfg : Gzip.Config) (order : ℤ) → Standard (gzip_middleware codec cfg order)
    cors : (cfg : Cors.Config) (order : ℤ) → Standard (cors_middleware cfg order)
    request_id :
        (random : S → S × List ℕ) (cfg : RequestId.Config) (order : ℤ)
        → Standard (request_id_middleware random cfg order)
    access_log :
        (log : Cell S (List Entry)) (clock : Clock S) (cfg : AccessLog.Config) (order : ℤ)
        → Standard (access_log_middleware log clock cfg order)
    metrics :
        {M : Type 0} (registry : Registry M) (cell : Cell S M) (clock : Clock S)
        (cfg : Metrics.Config) (order : ℤ)
        → Standard (metrics_middleware registry cell clock cfg order)

  module _ (authenticate : Authenticator S) where
    -- The authenticator takes no token of such a header, in any state.
    abbrev pub Rejects : String → Type 0
    Rejects header =
        (token : String) (s : S)
        → bearer_token header ≡ some token
        → (s' : S) × (kind : ErrorKind) × (message : String) × (authenticate token s
            ≡ (s', err kind message))

    -- A request that the gate does not let in.
    pub record Unknown (r : Request) : Type 0 where
      pub asks : r.method ≢ "OPTIONS"
      pub rejected : Rejects (get "Authorization" r.header)

    -- The handlers do the same for unknown requests.
    abbrev Agree : Handler S → Handler S → Type 0
    Agree h h' = (r : Request) (s : S) → Unknown r → h r s ≡ h' r s

    abbrev Transmits : (Handler S → Handler S) → Type 0
    Transmits wrap = (h h' : Handler S) → Agree h h' → Agree (wrap h) (wrap h')

    auth_middleware-Agree :
        (cfg : Auth.Config) (order : ℤ) (h h' : Handler S)
        → Agree
            ((auth_middleware authenticate cfg order).wrap h)
            ((auth_middleware authenticate cfg order).wrap h')
    unfolding auth_middleware
    auth_middleware-Agree cfg order h h' r s u = elim (middleware_gate authenticate r s u.asks) [
      | inl (s', info, e, f) ↦
          let (s'', kind, message, refused) = u.rejected e.token s e.carried in
          absurd (ok-err (sym (ap (λ out. out.1) e.accepted) ∙ ap (λ out. out.1) refused))
      | inr (s', ops, _, f) ↦ f h ∙ sym (f h')
    ]

    limiter-Transmits :
        (cfg : RateLimit.Config) (buckets : Cell S Buckets) (clock : Clock S) (order : ℤ)
        → Transmits (rate_limiter cfg buckets clock order).wrap
    unfolding rate_limiter
    limiter-Transmits cfg buckets clock order h h' a r s u = elim (Option-cases (client_of cfg r)) [
      | inl n ↦ rw (n, RateLimit.Middleware.middleware) (a r s u)
      | inr (client, e) ↦
          rw (e, RateLimit.Middleware.middleware)
            (rw (a r (limit_client cfg buckets clock client s).0 u) refl)
    ]

    cors-Transmits :
        (cfg : Cors.Config) (order : ℤ) → Transmits (cors_middleware {S = S} cfg order).wrap
    unfolding cors_middleware
    cors-Transmits cfg order h h' a r s u = rw (a r s u) refl

    access_log-Transmits :
        (log : Cell S (List Entry)) (clock : Clock S) (cfg : AccessLog.Config) (order : ℤ)
        → Transmits (access_log_middleware log clock cfg order).wrap
    unfolding access_log_middleware
    access_log-Transmits log clock cfg order h h' a r s u = rw (a r (clock.now s).0 u) refl

    metrics-Transmits :
        {M : Type 0} (registry : Registry M) (cell : Cell S M) (clock : Clock S)
        (cfg : Metrics.Config) (order : ℤ)
        → Transmits (metrics_middleware registry cell clock cfg order).wrap
    unfolding metrics_middleware
    metrics-Transmits registry cell clock cfg order h h' a r s u = rw (a r (clock.now s).0 u) refl

    request_id-Transmits :
        (random : S → S × List ℕ) (cfg : RequestId.Config) (order : ℤ)
        → Transmits (request_id_middleware random cfg order).wrap
    unfolding request_id_middleware
    request_id-Transmits random cfg order h h' a r s u =
        let (s', id) = request_id_of random r s in
        rw
          (a (record r { request_id = some id }) s'
            (record { asks = u.asks; rejected = u.rejected }))
          refl

    bearer-Transmits :
        (other : Authenticator S) (cfg : Auth.Config) (order : ℤ)
        → Transmits (auth_middleware other cfg order).wrap
    unfolding auth_middleware
    bearer-Transmits other cfg order h h' a r s u = elim (middleware_gate other r s u.asks) [
      | inl (s', info, e, f) ↦
          f h
          ∙ a (record r { auth = some info }) s' (record { asks = u.asks; rejected = u.rejected })
          ∙ sym (f h')
      | inr (s', ops, _, f) ↦ f h ∙ sym (f h')
    ]

    compress_response-Transmits :
        (codec : Codec) (cfg : Gzip.Config) → Transmits (compress_response codec cfg)
    unfolding compress_response
    compress_response-Transmits codec cfg h h' a r s u = rw (a r s u) refl

    decompressed-Unknown : (r : Request) (p : List ℕ) → Unknown r → Unknown (decompressed p r)
    unfolding same_key
    decompressed-Unknown r p u = record {
      asks = u.asks;
      rejected =
          subst Rejects
            (sym (
              get-del "Authorization" "Content-Length" (del "Content-Encoding" r.header)
              ∙ get-del "Authorization" "Content-Encoding" r.header))
            u.rejected;
    }

    gzip-Transmits :
        (codec : Codec) (cfg : Gzip.Config) (order : ℤ)
        → Transmits (gzip_middleware codec cfg order).wrap
    unfolding gzip_middleware decompress_request
    gzip-Transmits codec cfg order h h' a r s u = elim (Bool-cases (is_gzipped r)) [
      | inl z ↦ rw z (elim (Option-cases (codec.open_reader r.body)) [
        | inl n ↦ rw n refl
        | inr (p, e) ↦ rw e (
            compress_response-Transmits codec cfg h h' a (decompressed p r) s
              (decompressed-Unknown r p u))
      ])
      | inr z ↦ rw z (compress_response-Transmits codec cfg h h' a r s u)
    ]

    Standard-Transmits : {m : Middleware S} → Standard m → Transmits m.wrap
    Standard-Transmits (limiter cfg buckets clock order) = limiter-Transmits cfg buckets clock order
    Standard-Transmits (bearer other cfg order) = bearer-Transmits other cfg order
    Standard-Transmits (gzip codec cfg order) = gzip-Transmits codec cfg order
    Standard-Transmits (cors cfg order) = cors-Transmits cfg order
    Standard-Transmits (request_id random cfg order) = request_id-Transmits random cfg order
    Standard-Transmits (access_log log clock cfg order) = access_log-Transmits log clock cfg order
    Standard-Transmits (metrics registry cell clock cfg order) =
        metrics-Transmits registry cell clock cfg order

    -- With the gate on the route, behind any of the program's middlewares and before any others,
    -- the route answers a request whose token the authenticator takes in no state, and that is not
    -- OPTIONS, the same whatever its handler is: the answer and the state tell nothing of the
    -- handler.
    pub wrap_all_guarded :
        (pattern : String) (before after : List (Middleware S)) (cfg : Auth.Config) (order : ℤ)
        (h h' : Handler S)
        → All Standard before
        → Auth.applies cfg pattern ≡ true
        → (r : Request) (s : S) → Unknown r
        → let ms = before ++ auth_middleware authenticate cfg order ∷ after in
          wrap_all ms pattern h r s ≡ wrap_all ms pattern h' r s
    unfolding wrap_all auth_middleware
    wrap_all_guarded pattern [] after cfg order h h' std e r s u = rw e (
        auth_middleware-Agree cfg order (wrap_all after pattern h) (wrap_all after pattern h') r s
          u)
    wrap_all_guarded pattern (m ∷ before) after cfg order h h' (std, stds) e r s u =
        elim (Bool-cases (m.applies pattern)) [
          | inl y ↦ rw y (
              Standard-Transmits std _ _
                (wrap_all_guarded pattern before after cfg order h h' stds e) r s u)
          | inr n ↦ rw n (wrap_all_guarded pattern before after cfg order h h' stds e r s u)
        ]
