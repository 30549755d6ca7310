-- ===== src/Grpc/SameGate.antt =====
-- The interceptor and the middleware of the HTTP servers, side by side.

use servion.Base.{
  ℕ, String, true, false, List, ◌∷◌, some, ◌≡◌, ◌≢◌, ◌⊎◌, inl, inr, refl, ap, Option, none,
  Option-cases,
}
use servion.Text.{has_prefix}
use servion.Http.{Request, Handler, Op, AuthInfo, get, run, fresh, status, error}
use servion.Auth.{
  AuthResult, ok, err, ErrorKind, Authenticator, bearer_token, challenge, finish, middleware,
}
use servion.Auth.Gate.{middleware_of_token, middleware_of_none}
use servion.Auth
use servion.Grpc.{
  Code, Status, Metadata, Context, first_token, bearer_of, values_of, bearer_from_context,
  is_exempt, refusal, conclude, authenticate_call, unary_interceptor, stream_interceptor,
  ServerStream, unauthenticated_error,
}

-- The status of HTTP that says the same.
abbrev pub http_status : Code → ℕ
http_status Code.unauthenticated = 401
http_status Code.unavailable = 503
http_status Code.internal = 500
http_status Code.unimplemented = 501

status-challenge : (message : String) → status (run (challenge message) fresh) ≡ some 401
unfolding challenge error run
status-challenge message = refl

status-refusal :
    (kind : ErrorKind) (message : String)
    → status (run (Auth.refusal kind message) fresh)
      ≡ some (http_status (refusal kind message).code)
unfolding Auth.refusal refusal challenge error run
status-refusal ErrorKind.unauthorized message = refl
status-refusal ErrorKind.unavailable message = refl
status-refusal ErrorKind.other message = refl

module _ {S : Type 0} (authenticate : Authenticator S) where
  module _ (Req Resp Srv M : Type 0) (exempt : List String) (ctx : Context) (full_method : String)
      (r : Request) (s : S) where
    -- Every unary handler and every stream handler runs with that context, in that state; or none
    -- runs, and the call ends with that status.
    abbrev pub Called : S → Status ⊎ Context → Type 0
    Called s' out =
        ((req : Req) (handler : Context → Req → S → S × Option Resp × Option Status)
          → unary_interceptor authenticate exempt ctx req full_method handler s
            ≡ elim out [ inl e ↦ (s', none, some e) | inr ctx' ↦ handler ctx' req s' ])
        × ((srv : Srv) (inner : M) (handler : Srv → ServerStream M → S → S × Option Status)
            → stream_interceptor authenticate exempt srv (record { context = ctx; inner = inner })
                full_method handler s
              ≡ elim out [
                | inl e ↦ (s', some e)
                | inr ctx' ↦ handler srv (record { context = ctx'; inner = inner }) s'
              ])

    authenticate_call-Called :
        (s' : S) (out : Status ⊎ Context)
        → authenticate_call authenticate exempt ctx full_method s ≡ (s', out)
        → Called s' out
    unfolding unary_interceptor stream_interceptor
    authenticate_call-Called s' out e = (
      λ req handler.
          ap (λ c. elim c.1 [ inl e ↦ (c.0, none, some e) | inr ctx' ↦ handler ctx' req c.0 ]) e,
      λ srv inner handler.
          ap
            (λ c. elim c.1 [
              | inl e ↦ (c.0, some e)
              | inr ctx' ↦ handler srv (record { context = ctx'; inner = inner }) c.0
            ])
            e,
    )

    -- Both let the client in, as the same and behind the same check.
    abbrev pub BothEnter : Type 0
    BothEnter =
        (s' : S) × (info : AuthInfo) × Called s' (inr (record ctx { auth = some info }))
        × ((next : Handler S)
            → middleware authenticate next r s ≡ next (record r { auth = some info }) s')

    -- Both refuse the client, with statuses that say the same.
    abbrev pub BothRefuse : Type 0
    BothRefuse =
        (s' : S) × (e : Status) × (ops : List Op) × Called s' (inl e)
        × (status (run ops fresh) ≡ some (http_status e.code))
        × ((next : Handler S) → middleware authenticate next r s ≡ (s', ops))

    checked-cases :
        (token : String) (s' : S) (result : AuthResult)
        → r.method ≢ "OPTIONS"
        → bearer_token (get "Authorization" r.header) ≡ some token
        → authenticate token s ≡ (s', result)
        → authenticate_call authenticate exempt ctx full_method s ≡ conclude ctx (s', result)
        → BothEnter ⊎ BothRefuse
    unfolding conclude finish
    checked-cases token s' (ok info) m b a c = inl (
      s',
      info,
      authenticate_call-Called s' _ c,
      λ next. rw (middleware_of_token authenticate next r s token m b, a) refl,
    )
    checked-cases token s' (err kind message) m b a c = inr (
      s',
      refusal kind message,
      Auth.refusal kind message,
      authenticate_call-Called s' _ c,
      status-refusal kind message,
      λ next. rw (middleware_of_token authenticate next r s token m b, a) refl,
    )

    -- A unary or stream call that the interceptor checks and an HTTP request, not OPTIONS, whose
    -- Authorization header is the first authorization value of the call, are let in with the same
    -- identity, behind the same check in the same state, or both refused: Unauthenticated as 401,
    -- Unavailable as 503 and Internal as 500.
    pub interceptor_middleware :
        (md : Metadata) (more : List String)
        → has_prefix full_method "/" ≡ true
        → is_exempt exempt full_method ≡ false
        → ctx.incoming ≡ some md
        → values_of "authorization" md ≡ get "Authorization" r.header ∷ more
        → r.method ≢ "OPTIONS"
        → BothEnter ⊎ BothRefuse
    unfolding authenticate_call bearer_from_context bearer_of first_token
    interceptor_middleware md more y x i v m =
        elim (Option-cases (bearer_token (get "Authorization" r.header))) [
          | inl n ↦ inr (
            s,
            unauthenticated_error "invalid authorization header",
            challenge _,
            authenticate_call-Called s (inl (unauthenticated_error "invalid authorization header"))
                (rw (y, x, i, v, n) refl),
            status-challenge _,
            λ next. middleware_of_none authenticate next r s m n,
          )
          | inr (token, b) ↦
              checked-cases token (authenticate token s).0 (authenticate token s).1 m b refl
                (rw (y, x, i, v, b) refl)
        ]
