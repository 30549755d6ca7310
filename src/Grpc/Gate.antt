-- ===== src/Grpc/Gate.antt =====
-- Which calls get past the interceptor, and that they are those that get past the middleware of the
-- HTTP servers.

use servion.Base.{
  String, true, false, List, ◌∷◌, Option, none, some, ◌≡◌, ◌⊎◌, inl, inr, refl, ap, ◌∙◌, Bool-cases,
  Option-cases, List-cases,
}
use servion.Text.{is_empty, has_prefix}
use servion.Http.{AuthInfo}
use servion.Auth.{AuthResult, ok, err, Authenticator, bearer_token}
use servion.Grpc.{
  Code, Status, Metadata, Context, first_token, bearer_of, values_of, bearer_from_context,
  post_construct, is_exempt, refusal, conclude, authenticate_call, unary_interceptor,
  stream_interceptor, ServerStream, unauthenticated_error,
}
use servion.Grpc.Prefixes.{Configured, prefix-Configured}

abbrev pub malformed : Status
malformed = record { code = Code.unimplemented; message = "malformed method name" }

bearer_from_context-cases :
    (ctx : Context)
    → ((e : Status) × (bearer_from_context ctx ≡ inl e))
      ⊎ ((md : Metadata) × (h : String) × (more : List String) × (token : String) × (ctx.incoming
            ≡ some md)
          × (values_of "authorization" md ≡ h ∷ more)
          × (bearer_token h ≡ some token)
          × (bearer_from_context ctx ≡ inr token))
unfolding bearer_from_context bearer_of first_token
bearer_from_context-cases ctx = elim (Option-cases ctx.incoming) [
  | inl n ↦ inl (_, ap bearer_of n)
  | inr (md, i) ↦ elim (List-cases (values_of "authorization" md)) [
    | inl n ↦ inl (_, ap bearer_of i ∙ ap first_token n)
    | inr (h, more, v) ↦ elim (Option-cases (bearer_token h)) [
      | inl b ↦ inl (
        unauthenticated_error "invalid authorization header",
        ap bearer_of i ∙ ap first_token v ∙ rw (b, first_token) refl,
      )
      | inr (token, b) ↦ inr (
        md,
        h,
        more,
        token,
        i,
        v,
        b,
        ap bearer_of i ∙ ap first_token v ∙ rw (b, first_token) refl,
      )
    ]
  ]
]

module _ {S : Type 0} (authenticate : Authenticator S) where
  module _ (Req Resp Srv M : Type 0) where
    abbrev pub UnaryHandler : Type 0
    UnaryHandler = Context → Req → S → S × Option Resp × Option Status

    abbrev pub StreamHandler : Type 0
    StreamHandler = Srv → ServerStream M → S → S × Option Status

    module _ (listed : String) (ctx : Context) (full_method : String) (s : S) where
      -- The result of the call, by its handler.
      abbrev pub intercepted : Req → UnaryHandler → S × Option Resp × Option Status
      intercepted req handler =
          unary_interceptor authenticate (post_construct listed) ctx req full_method handler s

      -- The result of a stream of the same method, over a stream `inner` with the same context.
      abbrev pub streamed : Srv → M → StreamHandler → S × Option Status
      streamed srv inner handler =
          stream_interceptor authenticate (post_construct listed) srv
            (record { context = ctx; inner = inner }) full_method handler s

      -- Every handler, of unary calls and of streams, runs as if there were no interceptor.
      abbrev pub Passes : Type 0
      Passes =
          (p : String) × (is_empty p ≡ false)
          × (has_prefix full_method p ≡ true)
          × Configured listed p
          × ((req : Req) (handler : UnaryHandler) → intercepted req handler ≡ handler ctx req s)
          × ((srv : Srv) (inner : M) (handler : StreamHandler)
              → streamed srv inner handler
                ≡ handler srv (record { context = ctx; inner = inner }) s)

      -- Every handler, of unary calls and of streams, runs with the identity of the call's token.
      abbrev pub Enters : Type 0
      Enters =
          (md : Metadata) × (h : String) × (more : List String) × (token : String) × (s' : S)
          × (info : AuthInfo) × (ctx.incoming ≡ some md)
          × (values_of "authorization" md ≡ h ∷ more)
          × (bearer_token h ≡ some token)
          × (authenticate token s ≡ (s', ok info))
          × ((req : Req) (handler : UnaryHandler)
              → intercepted req handler ≡ handler (record ctx { auth = some info }) req s')
          × ((srv : Srv) (inner : M) (handler : StreamHandler)
              → streamed srv inner handler
                ≡ handler srv (record { context = record ctx { auth = some info }; inner = inner })
                    s')

      -- No handler runs, and the call and the stream end with the same status.
      abbrev pub Refused : Type 0
      Refused =
          (s' : S) × (e : Status) × ((req : Req) (handler : UnaryHandler)
            → intercepted req handler ≡ (s', none, some e))
          × ((srv : Srv) (inner : M) (handler : StreamHandler)
              → streamed srv inner handler ≡ (s', some e))

      abbrev called : S × (Status ⊎ Context)
      called = authenticate_call authenticate (post_construct listed) ctx full_method s

      unary_of_call :
          (s' : S) (out : Status ⊎ Context)
          → authenticate_call authenticate (post_construct listed) ctx full_method s ≡ (s', out)
          → (req : Req) (handler : UnaryHandler)
          → intercepted req handler
            ≡ elim out [ inl e ↦ (s', none, some e) | inr ctx' ↦ handler ctx' req s' ]
      unfolding unary_interceptor
      unary_of_call s' out a req handler =
          ap (λ r. elim r.1 [ inl e ↦ (r.0, none, some e) | inr ctx' ↦ handler ctx' req r.0 ]) a

      stream_of_call :
          (s' : S) (out : Status ⊎ Context)
          → authenticate_call authenticate (post_construct listed) ctx full_method s ≡ (s', out)
          → (srv : Srv) (inner : M) (handler : StreamHandler)
          → streamed srv inner handler ≡ elim out [
            | inl e ↦ (s', some e)
            | inr ctx' ↦ handler srv (record { context = ctx'; inner = inner }) s'
          ]
      unfolding stream_interceptor
      stream_of_call s' out a srv inner handler =
          ap
            (λ r. elim r.1 [
              | inl e ↦ (r.0, some e)
              | inr ctx' ↦ handler srv (record { context = ctx'; inner = inner }) r.0
            ])
            a

      abbrev beyond : Status ⊎ String → S × (Status ⊎ Context)
      beyond (inl e) = (s, inl e)
      beyond (inr token) = conclude ctx (authenticate token s)

      conclude-cases :
          (md : Metadata) (h : String) (more : List String) (token : String) (s' : S)
          (result : AuthResult)
          → ctx.incoming ≡ some md
          → values_of "authorization" md ≡ h ∷ more
          → bearer_token h ≡ some token
          → authenticate token s ≡ (s', result)
          → authenticate_call authenticate (post_construct listed) ctx full_method s
            ≡ conclude ctx (s', result)
          → Enters ⊎ Refused
      unfolding conclude
      conclude-cases md h more token s' (ok info) i v b a c =
          inl
            (md, h, more, token, s', info, i, v, b, a, unary_of_call s' _ c, stream_of_call s' _ c)
      conclude-cases md h more token s' (err kind message) i v b a c =
          inr (s', refusal kind message, unary_of_call s' _ c, stream_of_call s' _ c)

      -- The call beyond the prefixes.
      admitted-cases :
          authenticate_call authenticate (post_construct listed) ctx full_method s
            ≡ beyond (bearer_from_context ctx)
          → Enters ⊎ Refused
      admitted-cases c = elim (bearer_from_context-cases ctx) [
        | inl (e, b) ↦
            let d = c ∙ ap beyond b in inr (s, e, unary_of_call s _ d, stream_of_call s _ d)
        | inr (md, h, more, token, i, v, b, f) ↦
            conclude-cases md h more token (authenticate token s).0 (authenticate token s).1 i v b
              refl (c ∙ ap beyond f)
      ]

      -- A unary call or a stream of which the method does not begin with a slash is refused as
      -- unimplemented, and the authenticator is not asked. Any other runs its handler as it is if
      -- the method begins with a configured prefix, which is not empty; or with the identity that
      -- the authenticator gave for the bearer token of the first authorization value; or no handler
      -- runs.
      pub interceptor_gate :
          (has_prefix full_method "/" ≡ false
            → ((req : Req) (handler : UnaryHandler)
                → intercepted req handler ≡ (s, none, some malformed))
              × ((srv : Srv) (inner : M) (handler : StreamHandler)
                  → streamed srv inner handler ≡ (s, some malformed)))
          × ((has_prefix full_method "/" ≡ true × Passes) ⊎ (Enters ⊎ Refused))
      unfolding authenticate_call
      interceptor_gate = elim (Bool-cases (has_prefix full_method "/")) [
        | inl y ↦ (
          λ n. cc,
          elim (Bool-cases (is_exempt (post_construct listed) full_method)) [
            | inl x ↦
                let (p, n, h, k) = prefix-Configured listed full_method x in
                let d : called ≡ (s, inr ctx) = rw (y, x) refl in
                inl (y, (p, n, h, k, unary_of_call s _ d, stream_of_call s _ d))
            | inr x ↦ inr (admitted-cases (rw (y, x) refl))
          ],
        )
        | inr n ↦ (
          λ e.
              let d : called ≡ (s, inl malformed) = rw n refl in
              (unary_of_call s _ d, stream_of_call s _ d),
          let d : called ≡ (s, inl malformed) = rw n refl in
              inr (inr (s, malformed, unary_of_call s _ d, stream_of_call s _ d)),
        )
      ]
