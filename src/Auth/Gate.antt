-- ===== src/Auth/Gate.antt =====
-- Who gets past the middleware, and as whom.
use servion.Base.{
  String, List, none, some, ◌≡◌, ◌≢◌, refl, ◌⊎◌, inl, inr, if◌then◌else◌, str_eq-false, Bool-cases,
  Option-cases,
}
use servion.Text.{is_empty}
use servion.Http.{
  Request, Handler, Op, AuthInfo, get, error, run, fresh, status, sent_header, same_key,
}
use servion.Auth.{
  ErrorKind, unauthorized, unavailable, other, AuthResult, ok, err, Authenticator, bearer_token,
  challenge, refusal, finish, middleware,
}
use servion.Auth.Bearer.{bearer_token_of_empty}

-- The answer of a gate that stays shut: 401 with the challenge, 503 or 500.
abbrev pub IsRefusal : List Op → Type 0
IsRefusal ops =
    ((status (run ops fresh) ≡ some 401)
      × (sent_header "WWW-Authenticate" (run ops fresh) ≡ "Bearer"))
    ⊎ ((status (run ops fresh) ≡ some 503) ⊎ (status (run ops fresh) ≡ some 500))

challenge-IsRefusal : (message : String) → IsRefusal (challenge message)
unfolding challenge error run get same_key
challenge-IsRefusal message = inl (refl, refl)

refusal-IsRefusal : (kind : ErrorKind) (message : String) → IsRefusal (refusal kind message)
unfolding refusal error run
refusal-IsRefusal unauthorized message = challenge-IsRefusal message
refusal-IsRefusal unavailable message = inr (inl refl)
refusal-IsRefusal other message = inr (inr refl)

module _ {S : Type 0} (authenticate : Authenticator S) where
  -- The identity that the request earns in the state, with the state behind the check.
  pub record Entry (r : Request) (s s' : S) (info : AuthInfo) : Type 0 where
    pub token : String
    pub carried : bearer_token (get "Authorization" r.header) ≡ some token
    pub accepted : authenticate token s ≡ (s', ok info)

  -- The handler runs with the identity of the request, whichever handler it is.
  abbrev pub Enters : Request → S → Type 0
  Enters r s =
      (s' : S) × (info : AuthInfo) × Entry r s s' info
      × ((next : Handler S)
          → middleware authenticate next r s ≡ next (record r { auth = some info }) s')

  -- The same refusal for every handler: none of them runs.
  abbrev pub Refused : Request → S → Type 0
  Refused r s =
      (s' : S) × (ops : List Op) × IsRefusal ops
      × ((next : Handler S) → middleware authenticate next r s ≡ (s', ops))

  pub middleware_of_token :
      (next : Handler S) (r : Request) (s : S) (token : String)
      → r.method ≢ "OPTIONS"
      → bearer_token (get "Authorization" r.header) ≡ some token
      → middleware authenticate next r s ≡ finish authenticate next r (authenticate token s)
  unfolding middleware
  middleware_of_token next r s token m c =
      rw (str_eq-false r.method "OPTIONS" m)
        (elim (Bool-cases (is_empty (get "Authorization" r.header))) [
          | inl e ↦ cc (bearer_token_of_empty (get "Authorization" r.header) e)
          | inr e ↦ rw e (rw (c, middleware))
        ])

  pub middleware_of_none :
      (next : Handler S) (r : Request) (s : S)
      → r.method ≢ "OPTIONS"
      → bearer_token (get "Authorization" r.header) ≡ none
      → middleware authenticate next r s ≡ (
        s,
        challenge (
            if is_empty (get "Authorization" r.header)
            then "Authorization header is missing"
            else "invalid Authorization header"),
      )
  unfolding middleware
  middleware_of_none next r s m c =
      rw (str_eq-false r.method "OPTIONS" m)
        (elim (Bool-cases (is_empty (get "Authorization" r.header))) [
          | inl e ↦ rw e
          | inr e ↦ rw e (rw (c, middleware))
        ])

  finish-cases :
      (r : Request) (s t : S) (token : String) (result : AuthResult)
      → r.method ≢ "OPTIONS"
      → bearer_token (get "Authorization" r.header) ≡ some token
      → authenticate token s ≡ (t, result)
      → Enters r s ⊎ Refused r s
  unfolding finish
  finish-cases r s t token (ok info) m c a = inl (
    t,
    info,
    record { token = token; carried = c; accepted = a },
    λ next. rw (middleware_of_token next r s token m c, a),
  )
  finish-cases r s t token (err kind message) m c a = inr (
    t,
    refusal kind message,
    refusal-IsRefusal kind message,
    λ next. rw (middleware_of_token next r s token m c, a),
  )

  -- A request that is not OPTIONS either carries a bearer token that the authenticator accepts, and
  -- then every handler runs with the identity that it gave for that token, or it is refused by 401
  -- with a challenge, by 503 or by 500, and no handler runs.
  pub middleware_gate : (r : Request) (s : S) → r.method ≢ "OPTIONS" → Enters r s ⊎ Refused r s
  middleware_gate r s m = elim (Option-cases (bearer_token (get "Authorization" r.header))) [
    | inl n ↦ inr (s, _, challenge-IsRefusal _, λ next. middleware_of_none next r s m n)
    | inr (token, c) ↦
        finish-cases r s (authenticate token s).0 token (authenticate token s).1 m c refl
  ]
