-- ===== src/Cors/Laws.antt =====
-- What a browser learns of its origin.
use servion.Base.{
  String, Bool, true, false, not, ◌&&◌, List, [], ◌∷◌, ◌++◌, none, some, ◌≡◌, ◌≢◌, refl, arith,
  eq_iff, str_eq, if◌then◌else◌, Bool-cases, inl, inr,
}
use servion.Text.{is_empty}
use servion.Http.{
  Headers, Request, Handler, Op, set_header, get, set, same_key, status, sent_header, complete, run,
  send_header, fresh,
}
use servion.Http.Laws.{get-set}
use servion.Http.Silent.{IsSilent, touches, sent_header_of_IsSilent}
use servion.Cors.{Config, is_origin_allowed, origin_ops, preflight_ops, exposed, middleware}

-- The request has an origin that the configuration allows.
abbrev pub granted : Config → Request → Bool
granted cfg r =
    let origin = get "Origin" r.header in not (is_empty origin) && is_origin_allowed cfg origin

IsSilent-append :
    (name : String) (xs ys : List Op)
    → IsSilent name xs
    → IsSilent name ys
    → IsSilent name (xs ++ ys)
IsSilent-append name [] ys p q = q
IsSilent-append name (x ∷ xs) ys (p, ps) q = (p, IsSilent-append name xs ys ps q)

exposed-IsSilent : (hs : List String) → IsSilent "Access-Control-Allow-Origin" (exposed hs)
unfolding exposed touches same_key
exposed-IsSilent [] = tt
exposed-IsSilent (h ∷ hs) = (refl, tt)

-- The calls that follow the origin's own header.
more_ops : Config → List Op
more_ops cfg =
    (if cfg.allow_creds then set_header "Access-Control-Allow-Credentials" "true" ∷ [] else [])
    ++ exposed cfg.expose_headers

creds-IsSilent :
    (b : Bool)
    → IsSilent "Access-Control-Allow-Origin"
        (if b then set_header "Access-Control-Allow-Credentials" "true" ∷ [] else [])
unfolding touches same_key
creds-IsSilent true = (refl, tt)
creds-IsSilent false = tt

more_ops-IsSilent : (cfg : Config) → IsSilent "Access-Control-Allow-Origin" (more_ops cfg)
unfolding more_ops
more_ops-IsSilent cfg =
    IsSilent-append _ _ _ (creds-IsSilent cfg.allow_creds) (exposed-IsSilent cfg.expose_headers)

preflight_ops-IsSilent : (cfg : Config) → IsSilent "Access-Control-Allow-Origin" (preflight_ops cfg)
unfolding preflight_ops touches same_key
preflight_ops-IsSilent cfg = (refl, (refl, (refl, (refl, tt))))

-- Whatever silent calls follow, the origin is sent back.
origin_ops-sent :
    (cfg : Config) (origin : String) (ops : List Op)
    → IsSilent "Access-Control-Allow-Origin" ops
    → sent_header "Access-Control-Allow-Origin"
        (send_header 200 (run (origin_ops cfg origin ++ ops) fresh))
      ≡ origin
unfolding origin_ops more_ops run same_key
origin_ops-sent cfg origin ops q =
    rw
      (sent_header_of_IsSilent "Access-Control-Allow-Origin" (more_ops cfg ++ ops)
        (set "Access-Control-Allow-Origin" origin []) []
        (IsSilent-append _ (more_ops cfg) ops (more_ops-IsSilent cfg) q))
      (get-set "Access-Control-Allow-Origin" "Access-Control-Allow-Origin" origin [])

status-preflight_ops :
    (cfg : Config) (b : Bool) (hs : List String) (h : Headers)
    → status (
        send_header 200 (
          run
            (((if b then set_header "Access-Control-Allow-Credentials" "true" ∷ [] else [])
                ++ exposed hs)
              ++ preflight_ops cfg)
            (record { header = h; sent = none; body = [] })))
      ≡ some 204
unfolding preflight_ops run exposed send_header
status-preflight_ops cfg true [] h = refl
status-preflight_ops cfg true (x ∷ hs) h = refl
status-preflight_ops cfg false [] h = refl
status-preflight_ops cfg false (x ∷ hs) h = refl

module _ {S : Type 0} (cfg : Config) (next : Handler S) (r : Request) (s : S) where
  middleware_of_refused : granted cfg r ≡ false → middleware cfg next r s ≡ next r s
  unfolding middleware
  middleware_of_refused g = ground arith

  middleware_of_preflight :
      granted cfg r ≡ true
      → r.method ≡ "OPTIONS"
      → middleware cfg next r s ≡ (s, origin_ops cfg (get "Origin" r.header) ++ preflight_ops cfg)
  unfolding middleware
  middleware_of_preflight g m = ground (arith, eq_iff r.method "OPTIONS")

  middleware_of_granted :
      granted cfg r ≡ true
      → r.method ≢ "OPTIONS"
      → middleware cfg next r s
        ≡ ((next r s).0, origin_ops cfg (get "Origin" r.header) ++ (next r s).1)
  unfolding middleware
  middleware_of_granted g m = ground (arith, eq_iff r.method "OPTIONS")

  -- A preflight from an allowed origin changes no state and is answered by 204 with the origin in
  -- Access-Control-Allow-Origin, whatever the handler is.
  pub preflight_answered :
      granted cfg r ≡ true
      → r.method ≡ "OPTIONS"
      → ((middleware cfg next r s).0 ≡ s)
        × (status (complete (middleware cfg next) r s) ≡ some 204)
        × (sent_header "Access-Control-Allow-Origin" (complete (middleware cfg next) r s)
            ≡ get "Origin" r.header)
  unfolding origin_ops run
  preflight_answered g m = rw (middleware_of_preflight g m) (
    refl,
    status-preflight_ops cfg cfg.allow_creds cfg.expose_headers _,
    origin_ops-sent cfg (get "Origin" r.header) (preflight_ops cfg) (preflight_ops-IsSilent cfg),
  )

  -- Behind the middleware a handler that does not touch Access-Control-Allow-Origin answers with
  -- the request's origin in it when the configuration allows that origin, and without it otherwise.
  pub origin_reported :
      IsSilent "Access-Control-Allow-Origin" (next r s).1
      → sent_header "Access-Control-Allow-Origin" (complete (middleware cfg next) r s)
        ≡ (if granted cfg r then get "Origin" r.header else "")
  unfolding get
  origin_reported q = elim (Bool-cases (granted cfg r)) [
    | inl g ↦ elim (Bool-cases (str_eq r.method "OPTIONS")) [
      | inl m ↦ rw g ((preflight_answered g (ground (arith, eq_iff r.method "OPTIONS"))).2)
      | inr m ↦
          rw (g, middleware_of_granted g (λ e. absurd (ground (arith, eq_iff r.method "OPTIONS"))))
            (origin_ops-sent cfg (get "Origin" r.header) (next r s).1 q)
    ]
    | inr g ↦ rw (g, middleware_of_refused g) (sent_header_of_IsSilent _ _ [] [] q)
  ]
