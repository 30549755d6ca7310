-- ===== src/Servers/Binding.antt =====
-- What Bind of each of the three classes leaves: the flags of the server, and an address if it does
-- not fail.
use Prim.Native.String
use servion.Base.{
  ℕ, Bool, true, false, ◌&&◌, Option, none, some, inl, inr, ◌≡◌, refl, Bool-cases, Option-cases,
}
use servion.Text.{is_empty}
use servion.Runner.{Error}
use servion.Runner.Closing.{Sum-cases}
use servion.HttpServer.{Listener, HttpServer, listen_normally, bind as bind_http}
use servion.HttpServer
use servion.Grpc.Server.{TlsConfig, GrpcServer, secured, bind as bind_grpc}
use servion.Grpc.Server
use servion.Vrpc.{Library, ValueServer, listener_of, bind as bind_vrpc}

-- What the contract asks of a server.
pub record Flags : Type 0 where
  pub serving : Bool
  pub closed : Bool
  pub closes : ℕ
  pub homeless : Bool

abbrev pub is_absent : {A : Type 0} → Option A → Bool
is_absent none = true
is_absent (some x) = false

-- What Bind leaves: the flags as they were, but for an address if there is no error.
abbrev pub Binds : Flags → Flags → Option Error → Type 0
Binds f f' failed =
    (f'.serving ≡ f.serving)
    × (f'.closed ≡ f.closed)
    × (f'.closes ≡ f.closes)
    × ((is_absent failed && f'.homeless) ≡ false)

abbrev pub flags_http : HttpServer → Flags
flags_http t = record {
  serving = t.alive;
  closed = t.shut_down;
  closes = t.closes;
  homeless = is_absent t.listener;
}

abbrev pub flags_grpc : {GSrv : Type 0} → GrpcServer GSrv → Flags
flags_grpc t = record {
  serving = t.alive;
  closed = t.shut_down;
  closes = t.closes;
  homeless = is_absent t.listener;
}

abbrev pub flags_vrpc :
    {S Lis Dialer Srv Policy : Type 0} → ValueServer S Lis Dialer Srv Policy → Flags
flags_vrpc t = record {
  serving = t.alive;
  closed = t.shut_down;
  closes = t.closes;
  homeless = is_absent t.srv;
}

listen_normally-Binds :
    {S : Type 0} (net : HttpServer.Network S) (t : HttpServer) (s : S)
    → let r = listen_normally net t s in Binds (flags_http t) (flags_http r.1) r.2
unfolding listen_normally
listen_normally-Binds net t s = elim (Sum-cases (net.listen t.addr s).1) [
  | inl (x, e) ↦ rw (e, listen_normally) (refl, refl, refl, refl)
  | inr (ln, e) ↦ rw (e, listen_normally) (refl, refl, refl, refl)
]

pub http-Binds :
    {S : Type 0} (net : HttpServer.Network S) (t : HttpServer) (s : S)
    → let r = bind_http net t s in Binds (flags_http t) (flags_http r.1) r.2
unfolding bind_http
http-Binds net t s = elim (Option-cases net.provider) [
  | inl n ↦ rw (n, bind_http) (listen_normally-Binds net t s)
  | inr (provide, p) ↦
      rw (p, bind_http)
        (elim (Sum-cases (provide t.addr s).1) [
          | inl (x, e) ↦ rw e (refl, refl, refl, refl)
          | inr (given, e) ↦ rw e (elim (Option-cases given) [
            | inl n ↦ rw n (listen_normally-Binds net t (provide t.addr s).0)
            | inr (ln, g) ↦ rw g (refl, refl, refl, refl)
          ])
        ])
]

secured-Binds :
    {GSrv : Type 0} (tls : Option TlsConfig) (ln : Listener) (t : GrpcServer GSrv)
    → Binds (flags_grpc t) (flags_grpc (secured tls ln t)) none
unfolding secured
secured-Binds none ln t = (refl, refl, refl, refl)
secured-Binds (some cfg) ln t = (refl, refl, refl, refl)

pub grpc-Binds :
    {S GSrv : Type 0} (net : Server.Network S) (t : GrpcServer GSrv) (s : S)
    → let r = bind_grpc net t s in Binds (flags_grpc t) (flags_grpc r.1) r.2
unfolding bind_grpc
grpc-Binds net t s = elim (Bool-cases (is_empty t.bind_address)) [
  | inl y ↦ rw (y, bind_grpc) (refl, refl, refl, refl)
  | inr n ↦
      rw (n, bind_grpc)
        (elim (Sum-cases (net.listen t.bind_address s).1) [
          | inl (x, e) ↦ rw e (refl, refl, refl, refl)
          | inr (ln, e) ↦ rw e (secured-Binds t.tls_config ln t)
        ])
]

and_false : (b : Bool) → (b && false) ≡ false
and_false true = refl
and_false false = refl

pub vrpc-Binds :
    {S Base Conn Lis Dialer Srv Policy : Type 0} (library : Library S Base Conn Lis Srv Policy)
    (t : ValueServer S Lis Dialer Srv Policy) (s : S)
    → let r = bind_vrpc library t s in Binds (flags_vrpc t) (flags_vrpc r.1) r.2
unfolding bind_vrpc
vrpc-Binds library t s =
    let addr = t.properties.get_string (String.◌++◌ t.bean_name ".bind-address") "" in
    elim (Bool-cases (is_empty addr)) [
      | inl y ↦ rw (y, bind_vrpc) (refl, refl, refl, refl)
      | inr n ↦
          rw (n, bind_vrpc)
            (elim (Sum-cases (listener_of library t addr s).1) [
              | inl (x, e) ↦ rw e (refl, refl, refl, refl)
              | inr (lis, e) ↦
                  rw e
                    (elim (Sum-cases (library.new_server lis (listener_of library t addr s).0).1) [
                      | inl (x, c) ↦ rw c (refl, refl, refl, refl)
                      | inr (srv, c) ↦ rw c (refl, refl, refl, and_false _)
                    ])
            ])
    ]
