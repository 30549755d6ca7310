-- ===== src/Factory/Guarded.antt =====
-- The whole server of the factory, for requests that the bearer gate does not let in. gorilla/mux
-- is an argument: by the patterns of the routes it gives a request to one of them, to the handler
-- for what is not found, or answers it itself.
use servion.Base.{
  ℕ, zero, suc, String, Bool, true, false, List, [], ◌∷◌, ◌++◌, All, map, Option, none, some, ◌⊎◌,
  inl, inr, ◌≡◌, refl, ap, sym, ◌∙◌, subst, if◌then◌else◌, Bool-cases, put,
}
use servion.Base.Int.{ℤ}
use servion.Http.{Request, Handler, Op, Middleware}
use servion.Text.{is_empty}
use servion.Options.{parse_options, enabled}
use servion.Auth.{Authenticator, auth_middleware}
use servion.Auth
use servion.Factory.{
  HttpHandler, ServerFactory, Route, Server, wrap_all, register, object, property, fallback,
}
use servion.Factory.Chain.{Standard, Unknown, wrap_all_guarded}

-- What the router does with a request.
pub data Choice : Type 0 where
  to_route : ℕ → Choice
  to_not_found : Choice
  itself : List Op → Choice

pub record Mux (S : Type 0) : Type 0 where
  pub choose : List String → Request → Choice
  -- http.NotFound
  pub http_not_found : Handler S

module _ {S : Type 0} where
  unfoldable pub nth : ℕ → List (Route S) → Option (Handler S)
  nth n [] = none
  nth zero ((pattern, h) ∷ routes) = some h
  nth (suc n) (route ∷ routes) = nth n routes

  abbrev pub patterns : List (Route S) → List String
  patterns routes = map (λ route. route.0) routes

  module _ (mux : Mux S) where
    unfoldable pub or_not_found : Option (Handler S) → Handler S
    or_not_found none = mux.http_not_found
    or_not_found (some h) = h

    unfoldable pub deliver : Choice → List (Route S) → Option (Handler S) → Handler S
    unfolding nth or_not_found
    deliver (to_route n) routes fallback r s = or_not_found (nth n routes) r s
    deliver to_not_found routes fallback r s = or_not_found fallback r s
    deliver (itself ops) routes fallback r s = (s, ops)

    -- ServeHTTP of the router.
    unfoldable pub dispatch : Server S → Handler S
    unfolding deliver
    dispatch srv r s =
        deliver (mux.choose (patterns srv.routes) r) srv.routes srv.not_found_handler r s

    -- A request to the server that the factory builds, if it builds one.
    unfoldable pub serve_object : ServerFactory S → Request → S → Option (S × List Op)
    unfolding dispatch
    serve_object t r s = elim (object t) [ none ↦ none | some srv ↦ some (dispatch srv r s) ]

  -- The handlers, each with what it does exchanged, on the same patterns.
  abbrev pub exchanged : (HttpHandler S → Handler S) → List (HttpHandler S) → List (HttpHandler S)
  exchanged other [] = []
  exchanged other (h ∷ hs) = record h { serve = other h } ∷ exchanged other hs

  module _ (authenticate : Authenticator S) where
    abbrev Agree : Handler S → Handler S → Type 0
    Agree h h' = (r : Request) (s : S) → Unknown authenticate r → h r s ≡ h' r s

    -- The same patterns, with handlers that agree.
    abbrev Same : List (Route S) → List (Route S) → Type 0
    Same [] [] = Unit
    Same ((p, h) ∷ xs) ((q, k) ∷ ys) = (p ≡ q) × Agree h k × Same xs ys
    Same _ _ = ⊥

    Same-refl : (xs : List (Route S)) → Same xs xs
    Same-refl [] = tt
    Same-refl ((p, h) ∷ xs) = (refl, λ r s u. refl, Same-refl xs)

    Same-append : (xs ys zs : List (Route S)) → Same xs ys → Same (xs ++ zs) (ys ++ zs)
    Same-append [] [] zs e = Same-refl zs
    Same-append ((p, h) ∷ xs) ((q, k) ∷ ys) zs (e, a, es) = (e, a, Same-append xs ys zs es)
    Same-append [] (y ∷ ys) zs e = absurd e
    Same-append (x ∷ xs) [] zs e = absurd e

    Same-if :
        (b : Bool) (xs ys : List (Route S))
        → Same xs ys
        → Same (if b then xs else []) (if b then ys else [])
    Same-if true xs ys e = e
    Same-if false xs ys e = tt

    patterns-Same : (xs ys : List (Route S)) → Same xs ys → patterns xs ≡ patterns ys
    patterns-Same [] [] e = refl
    patterns-Same ((p, h) ∷ xs) ((q, k) ∷ ys) (e, a, es) = rw (e, patterns-Same xs ys es) refl
    patterns-Same [] (y ∷ ys) e = absurd e
    patterns-Same (x ∷ xs) [] e = absurd e

    nth-Same :
        (mux : Mux S) (n : ℕ) (xs ys : List (Route S))
        → Same xs ys
        → Agree (or_not_found mux (nth n xs)) (or_not_found mux (nth n ys))
    unfolding nth or_not_found
    nth-Same mux n [] [] e r s u = refl
    nth-Same mux zero ((p, h) ∷ xs) ((q, k) ∷ ys) (e, a, es) r s u = a r s u
    nth-Same mux (suc n) ((p, h) ∷ xs) ((q, k) ∷ ys) (e, a, es) r s u =
        nth-Same mux n xs ys es r s u
    nth-Same mux n [] (y ∷ ys) e r s u = absurd e
    nth-Same mux n (x ∷ xs) [] e r s u = absurd e

    module _ (before after : List (Middleware S)) (cfg : Auth.Config) (order : ℤ)
        (other : HttpHandler S → Handler S) where
      abbrev pub gated : List (Middleware S)
      gated = before ++ auth_middleware authenticate cfg order ∷ after

      -- Only handlers on patterns that the gate guards are exchanged.
      abbrev pub BehindGate : HttpHandler S → Type 0
      BehindGate h = (Auth.applies cfg h.pattern ≡ true) ⊎ (other h ≡ h.serve)

      wrap_all-Agree :
          All Standard before
          → (h : HttpHandler S) → BehindGate h
          → Agree (wrap_all gated h.pattern h.serve) (wrap_all gated h.pattern (other h))
      wrap_all-Agree std h (inl e) r s u =
          wrap_all_guarded authenticate h.pattern before after cfg order h.serve (other h) std e r s
            u
      wrap_all-Agree std h (inr e) r s u = ap (λ k. wrap_all gated h.pattern k r s) (sym e)

      register-Same :
          All Standard before
          → (hs : List (HttpHandler S)) (visited : List (String × Bool)) → All BehindGate hs
          → Same (register gated hs visited).0 (register gated (exchanged other hs) visited).0
      unfolding register
      register-Same std [] visited gs = tt
      register-Same std (h ∷ hs) visited (g, gs) = elim (Bool-cases (enabled visited h.pattern)) [
        | inl old ↦ rw old (register-Same std hs visited gs)
        | inr new ↦
            rw new
              (refl, wrap_all-Agree std h g, register-Same std hs (put h.pattern true visited) gs)
      ]

      deliver-Agree :
          (mux : Mux S) (choice : Choice) (xs ys : List (Route S)) (fallback : Option (Handler S))
          → Same xs ys
          → Agree (deliver mux choice xs fallback) (deliver mux choice ys fallback)
      unfolding deliver
      deliver-Agree mux (to_route n) xs ys fallback e r s u = nth-Same mux n xs ys e r s u
      deliver-Agree mux to_not_found xs ys fallback e r s u = refl
      deliver-Agree mux (itself ops) xs ys fallback e r s u = refl

      -- The router chooses by the patterns, which are the same.
      choose-Agree :
          (mux : Mux S) (xs ys : List (Route S)) (fallback : Option (Handler S))
          → Same xs ys
          → Agree
              (λ r s. deliver mux (mux.choose (patterns xs) r) xs fallback r s)
              (λ r s. deliver mux (mux.choose (patterns ys) r) ys fallback r s)
      choose-Agree mux xs ys fallback e r s u =
          deliver-Agree mux (mux.choose (patterns xs) r) xs ys fallback e r s u
          ∙ ap (λ ps. deliver mux (mux.choose ps r) ys fallback r s) (patterns-Same xs ys e)

      -- A server whose middlewares hold the bearer gate, with only the program's own middlewares
      -- before it: if the handlers on patterns that the gate guards are exchanged for any others, a
      -- request whose token the authenticator takes in no state, and that is not OPTIONS, gets the
      -- same answer in the same state, by whatever route the router chooses by the patterns; or
      -- neither server is built.
      pub object_guarded :
          (t : ServerFactory S) (mux : Mux S)
          → All Standard before
          → t.middlewares ≡ gated
          → All BehindGate t.handlers
          → (r : Request) (s : S) → Unknown authenticate r
          → serve_object mux t r s
            ≡ serve_object mux (record t { handlers = exchanged other t.handlers }) r s
      unfolding serve_object object property dispatch
      object_guarded t mux std m gs r s u =
          let registered =
            subst
              (λ ms.
                Same (register ms t.handlers []).0 (register ms (exchanged other t.handlers) []).0)
              (sym m) (register-Same std t.handlers [] gs) in
          elim (Bool-cases (is_empty (property t "bind-address" ""))) [
            | inl n ↦ rw (n, serve_object, object) refl
            | inr n ↦
                rw (n, serve_object, object)
                  (ap some (
                    choose-Agree mux _ _ _
                      (Same-append _ _ _ (
                        Same-if (enabled (parse_options (property t "options" "")) "handlers") _ _
                          registered))
                      r s u))
          ]
