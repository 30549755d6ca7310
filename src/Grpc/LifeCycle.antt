-- ===== src/Grpc/LifeCycle.antt =====
-- The gRPC server under any sequence of calls.
use servion.Base.{
  suc, String, Bool, true, false, List, [], ◌∷◌, ◌++◌, Option, none, some, inl, inr, ◌≡◌, refl, ap,
  any, if◌then◌else◌, Bool-cases, arith, str_eq,
}
use servion.Text.{is_empty}
use servion.Runner.Closing.{Sum-cases}
use servion.HttpServer.{Listener, over_tls, socket, Blocking, returned, panicked}
use servion.Grpc.Server.{
  TlsConfig, Network, Bean, GrpcServer, grpc_server, ensure_h2, resolve, post_construct, secured,
  bind, begin_serve, end_serve, shutdown,
}

-- What the program does with a server.
pub data Call (Srv : Type 0) : Type 0 where
  to_construct : List (Bean Srv) → Call Srv
  to_bind : Call Srv
  to_begin : Call Srv
  to_end : Blocking String → Call Srv
  to_shut_down : Call Srv

abbrev offers_h2 : List String → Bool
offers_h2 protos = any (λ p. str_eq p "h2") protos

any-append : (p : String → Bool) (xs ys : List String) → any p ys ≡ true → any p (xs ++ ys) ≡ true
any-append p [] ys e = e
any-append p (x ∷ xs) ys e = ground (arith, any-append p xs ys e)

ensure_h2-offers : (cfg : TlsConfig) → offers_h2 (ensure_h2 cfg).next_protos ≡ true
unfolding ensure_h2
ensure_h2-offers cfg = elim (Bool-cases (offers_h2 cfg.next_protos)) [
  | inl y ↦ rw y y
  | inr n ↦ rw n (any-append (λ p. str_eq p "h2") cfg.next_protos ("h2" ∷ []) refl)
]

-- The listener is over TLS.
abbrev pub is_over_tls : Listener → Bool
is_over_tls (over_tls ln) = true
is_over_tls (socket n) = false

-- The listener, where there is one, is over TLS and offers "h2" if TLS is configured.
abbrev pub Offers : Option TlsConfig → Option Listener → List String → Type 0
Offers none ln protos = Unit
Offers (some cfg) none protos = Unit
Offers (some cfg) (some ln) protos =
    (is_over_tls ln ≡ true) × (any (λ p. str_eq p "h2") protos ≡ true)

Offers-none : (tls : Option TlsConfig) (protos : List String) → Offers tls none protos
Offers-none none protos = tt
Offers-none (some cfg) protos = tt

module _ {Srv : Type 0} where
  abbrev pub is_shutdown : Call Srv → Bool
  is_shutdown to_shut_down = true
  is_shutdown _ = false

  abbrev pub Consistent : GrpcServer Srv → Type 0
  Consistent t =
      (t.closes ≡ (if t.shut_down then 1 else 0)) × Offers t.tls_config t.listener t.next_protos

  -- What Bind keeps.
  abbrev Kept : GrpcServer Srv → GrpcServer Srv → Type 0
  Kept t t' = Consistent t' × (t'.shut_down ≡ t.shut_down)

  secured-Kept :
      (tls : Option TlsConfig) (ln : Listener) (t : GrpcServer Srv)
      → t.tls_config ≡ tls
      → Consistent t
      → Kept t (secured tls ln t)
  unfolding secured
  secured-Kept none ln t e (c, o) = ((c, rw e tt), refl)
  secured-Kept (some cfg) ln t e (c, o) = ((c, rw e (refl, ensure_h2-offers cfg)), refl)

  module _ {S : Type 0} (net : Network S) where
    bind-Kept : (t : GrpcServer Srv) (s : S) → Consistent t → Kept t (bind net t s).1
    unfolding bind
    bind-Kept t s v = elim (Bool-cases (is_empty t.bind_address)) [
      | inl y ↦ rw (y, bind) (v, refl)
      | inr n ↦
          rw (n, bind)
            (elim (Sum-cases (net.listen t.bind_address s).1) [
              | inl (x, e) ↦ rw e ((v.0, Offers-none t.tls_config t.next_protos), refl)
              | inr (ln, e) ↦ rw e (secured-Kept t.tls_config ln t refl v)
            ])
    ]

    unfoldable pub call : Call Srv → GrpcServer Srv × S → GrpcServer Srv × S
    call (to_construct beans) (t, s) = ((post_construct beans t).0, s)
    call to_bind (t, s) = let (s', t', _) = bind net t s in (t', s')
    call to_begin (t, s) = (begin_serve t, s)
    call (to_end blocked) (t, s) = ((end_serve blocked t).0, s)
    call to_shut_down (t, s) = let (s', t') = shutdown net t s in (t', s')

    unfoldable pub calls : List (Call Srv) → GrpcServer Srv × S → GrpcServer Srv × S
    unfolding call
    calls [] x = x
    calls (c ∷ cs) x = calls cs (call c x)

    call-Consistent :
        (c : Call Srv) (t : GrpcServer Srv) (s : S)
        → Consistent t
        → Consistent (call c (t, s)).0
          × ((call c (t, s)).0.shut_down ≡ (if is_shutdown c then true else t.shut_down))
    unfolding call post_construct begin_serve end_serve shutdown
    call-Consistent (to_construct beans) t s v = elim (Sum-cases (resolve t.bean_name beans)) [
      | inl (x, e) ↦ rw (e, post_construct) (v, refl)
      | inr (srv, e) ↦ rw (e, post_construct) (v, refl)
    ]
    call-Consistent to_bind t s v = bind-Kept t s v
    call-Consistent to_begin t s v = (v, refl)
    call-Consistent (to_end (returned none)) t s v = (v, refl)
    call-Consistent (to_end (returned (some message))) t s v = (v, refl)
    call-Consistent (to_end (panicked message)) t s v = (v, refl)
    call-Consistent to_shut_down t s v = elim (Bool-cases t.shut_down) [
      | inl y ↦ rw (y, shutdown) ((rw y at v.0, v.1), refl)
      | inr n ↦ rw (n, shutdown) ((ap suc (rw n at v.0), v.1), refl)
    ]

    calls-Consistent :
        (cs : List (Call Srv)) (t : GrpcServer Srv) (s : S)
        → Consistent t
        → Consistent (calls cs (t, s)).0
          × ((calls cs (t, s)).0.shut_down ≡ (if t.shut_down then true else any is_shutdown cs))
    unfolding calls
    calls-Consistent [] t s v = (v, ground arith)
    calls-Consistent (c ∷ cs) t s v =
        let (one, down) = call-Consistent c t s v in
        let (rest, final) = calls-Consistent cs (call c (t, s)).0 (call c (t, s)).1 one in
        (rest, ground (arith, down, final))

    -- In any sequence of PostConstruct, Bind, Serve and Shutdown on a new server, its channel is
    -- closed exactly once when Shutdown is called, however often, and not at all when it is not;
    -- and where TLS is configured, the listener, if there is one, is over TLS and offers "h2".
    pub calls_keep_h2 :
        (bean_name addr : String) (tls : Option TlsConfig) (cs : List (Call Srv)) (s : S)
        → let t = (calls cs (grpc_server bean_name addr tls, s)).0 in
          (t.closes ≡ (if any is_shutdown cs then 1 else 0)) × Consistent t
    calls_keep_h2 bean_name addr tls cs s =
        let new = grpc_server bean_name addr tls in
        let (v, down) = calls-Consistent cs new s (refl, Offers-none tls []) in (rw down at v.0, v)
