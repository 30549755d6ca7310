-- ===== src/AuthExample/Me.antt =====
-- Who gets an answer of /api/me.
use servion.Base.{
  ℕ, String, true, List, [], ◌∷◌, some, ◌⊎◌, inl, inr, ◌≡◌, ◌≢◌, refl, ap, ◌∙◌, find, put,
}
use servion.Text.{has_prefix}
use servion.Http.{Request, Handler, Op, AuthInfo, get}
use servion.Options.{enabled, parse_options}
use servion.Text.{split, trim_space}
use servion.Factory.{wrap_all, register, object, property}
use servion.Factory.Guarded.{Mux, to_route, nth, or_not_found, deliver, dispatch, serve_object}
use servion.Auth.{Authenticator, AuthResult, ok, bearer_token, auth_middleware, middleware}
use servion.Auth
use servion.Auth.Gate.{IsRefusal, middleware_gate}
use servion.Jwt.{Library, hmac, secret, hmac_key_func, malformed, post_construct, authenticate}
use servion.Jwt.Keys.{authenticate-Verified}
use servion.AuthExample.{
  Json, serve_me, identity_answer, or_default, properties, jwt_config, http_server,
}

-- The router leads the path of a handler to it.
abbrev pub Routed : {S : Type 0} → Mux S → Request → Type 0
Routed mux r = mux.choose ("/status" ∷ "/api/me" ∷ "/healthz" ∷ []) r ≡ to_route 1

module _ {S PublicKey : Type 0} (library : Library S PublicKey) (hash_token : String → String) where
  -- The provider of main, behind its PostConstruct.
  abbrev pub provider : Authenticator S
  provider = authenticate library hash_token jwt_config (hmac_key_func jwt_config.secret)

  by_secret :
      (token : String) (s : S) (info : AuthInfo)
      → (provider token s).1 ≡ ok info
      → (library.method token ≡ hmac) × (library.signed (secret jwt_config.secret) token ≡ true)
  unfolding post_construct
  by_secret token s info a =
      elim (authenticate-Verified library (λ k. malformed) hash_token jwt_config
        (hmac_key_func jwt_config.secret) token s info refl a) [
          | inl (_, _, named, signed) ↦ (named, signed)
          | inr (empty, _, _) ↦ cc
        ]

  module _ (json : Json → List ℕ) (health : Handler S) (mux : Mux S) where
    serve_object-me :
        (r : Request) (s : S)
        → Routed mux r
        → serve_object mux (http_server json provider health) r s
          ≡ some (middleware provider (serve_me json) r s)
    unfolding serve_object object http_server dispatch property properties register wrap_all enabled
        auth_middleware Auth.applies has_prefix find put or_default parse_options split trim_space
        deliver nth or_not_found
    serve_object-me r s e = rw (e, deliver) refl

    -- A request that the router leads to /api/me, and that is not OPTIONS, is answered by the
    -- identity that the provider gave for its bearer token, which names HMAC and is signed by the
    -- configured secret; or it is refused by 401, 503 or 500.
    pub me_answers :
        (r : Request) (s : S)
        → Routed mux r
        → r.method ≢ "OPTIONS"
        → ((s' : S) × (info : AuthInfo) × (token : String) × (bearer_token
                (get "Authorization" r.header)
              ≡ some token)
            × (provider token s ≡ (s', ok info))
            × (library.method token ≡ hmac)
            × (library.signed (secret jwt_config.secret) token ≡ true)
            × (serve_object mux (http_server json provider health) r s
                ≡ some (s', identity_answer json info)))
          ⊎ ((s' : S) × (ops : List Op) × IsRefusal ops
              × (serve_object mux (http_server json provider health) r s ≡ some (s', ops)))
    unfolding serve_me
    me_answers r s e m = elim (middleware_gate provider r s m) [
      | inl (s', info, entry, f) ↦
          let (named, signed) = by_secret entry.token s info (ap (λ out. out.1) entry.accepted) in
          inl (
            s',
            info,
            entry.token,
            entry.carried,
            entry.accepted,
            named,
            signed,
            serve_object-me r s e ∙ ap some (f (serve_me json)),
          )
      | inr (s', ops, i, f) ↦ inr (s', ops, i, serve_object-me r s e ∙ ap some (f (serve_me json)))
    ]
