-- ===== src/Servers/Contract.antt =====
-- What the three classes of a Server have in common, as an abstract server of four flags.
use servion.Base.{
  ℕ, String, Bool, true, false, ◌&&◌, ◌||◌, List, Option, none, some, inl, inr, ◌≡◌, refl, ap, ◌∙◌,
  if◌then◌else◌,
}
use servion.Runner.{Error}
use servion.Factory.{Properties}
use servion.HttpServer.{new_http_server, Blocking, returned, panicked}
use servion.Runner.Closing.{Sum-cases}
use servion.Grpc.Server.{TlsConfig, Bean, grpc_server, resolve, post_construct}
use servion.Vrpc.{ValueService, Transport}
use servion.Servers.{
  AnyServer, http, grpc, vrpc, is_empty_addr, value_server, World, alive, listen_address,
  begin_serve, end_serve, bind, shutdown, destroy,
}
use servion.Servers.Binding.{is_absent}
use servion.Servers.Steps.{
  View, fresh, Agrees, flags, begin_serve-Agrees, end_serve-Agrees, homeless-listen_address,
  end_serve-none, end_serve-panicked, behind_serve, serving-alive, bind-Binds, shutdown-Agrees,
  shutdown_of_closed,
}

module _ {S GSrv Lis Dialer Srv Policy : Type 0} where
  -- How often the channel of ShutdownCh was closed.
  abbrev pub closes : AnyServer S GSrv Lis Dialer Srv Policy → ℕ
  closes t = (flags t).closes

  module _ {Base Conn : Type 0} (world : World S Base Conn Lis Srv Policy) where
    -- The servers that the program has, and what became of the abstract server. The program starts
    -- Serve only on a server that is bound and not in a Serve, and binds it and shuts it down at
    -- any time; the world changes at any time.
    pub data Reached : View → AnyServer S GSrv Lis Dialer Srv Policy → S → Type 0 where
      new_http :
          (addr : String) (tls : Bool) (s : S) → Reached fresh (http (new_http_server addr tls)) s
      new_grpc :
          (bean_name addr : String) (tls : Option TlsConfig) (beans : List (Bean GSrv)) (s : S)
          → Reached fresh (grpc (post_construct beans (grpc_server bean_name addr tls)).0) s
      new_vrpc :
          (bean_name : String) (properties : Properties) (services : List (ValueService S Srv))
          (guards : Bool × Bool) (obfs : Option Policy)
          (transport : Option (Transport S Lis Dialer)) (s : S)
          → Reached fresh
              (vrpc (value_server bean_name properties services guards obfs transport))
              s
      bound :
          {v : View} {t : AnyServer S GSrv Lis Dialer Srv Policy} {s : S}
          → Reached v t s
          → Reached
              (record v { bound = is_absent (bind world t s).2 })
              (bind world t s).1
              (bind world t s).0
      serving :
          {v : View} {t : AnyServer S GSrv Lis Dialer Srv Policy} {s : S}
          → Reached v t s
          → v.bound ≡ true
          → v.serving ≡ false
          → Reached (record v { serving = true }) (begin_serve t).0 s
      served :
          {v : View} {t : AnyServer S GSrv Lis Dialer Srv Policy} {s : S} (blocked : Blocking Error)
          → Reached v t s
          → v.serving ≡ true
          → Reached (behind_serve blocked v) (end_serve blocked t).0 s
      shut :
          {v : View} {t : AnyServer S GSrv Lis Dialer Srv Policy} {s : S}
          → Reached v t s
          → Reached (record v { closed = true }) (shutdown world t s).1 (shutdown world t s).0
      moved :
          {v : View} {t : AnyServer S GSrv Lis Dialer Srv Policy} {s : S} (s' : S)
          → Reached v t s
          → Reached v t s'

    pub Reached-Agrees :
        {v : View} {t : AnyServer S GSrv Lis Dialer Srv Policy} {s : S}
        → Reached v t s
        → Agrees v (flags t)
    unfolding flags post_construct
    Reached-Agrees (new_http addr tls s) = (refl, refl, refl, refl)
    Reached-Agrees (new_grpc bean_name addr tls beans s) =
        elim (Sum-cases (resolve bean_name beans)) [
          | inl (x, e) ↦ rw (e, post_construct) (refl, refl, refl, refl)
          | inr (srv, e) ↦ rw (e, post_construct) (refl, refl, refl, refl)
        ]
    Reached-Agrees (new_vrpc bean_name properties services guards obfs transport s) =
        (refl, refl, refl, refl)
    Reached-Agrees (bound {v} {t} {s} r) =
        let (a, d, c, h) = Reached-Agrees r in
        let (a', d', c', h') = bind-Binds world t s in (a' ∙ a, d' ∙ d, c' ∙ c, h')
    Reached-Agrees (serving {v} {t} r b n) = begin_serve-Agrees v t b (Reached-Agrees r)
    Reached-Agrees (served {v} {t} blocked r b) = end_serve-Agrees v blocked t b (Reached-Agrees r)
    Reached-Agrees (shut {v} {t} {s} r) = shutdown-Agrees world v t s (Reached-Agrees r)
    Reached-Agrees (moved s' r) = Reached-Agrees r

    -- An HTTP, gRPC or value-rpc server behind any sequence of Bind, Serve and Shutdown in which
    -- Serve starts only on a server of which the last Bind succeeded and that is not in a Serve: it
    -- is alive exactly while a Serve has not returned or when the last Serve that returned did it
    -- by a recovered panic; its shutdown channel was closed once if Shutdown was called, however
    -- often, and never otherwise; its listen address is not EmptyAddr if the last Bind succeeded,
    -- whether it is alive or not; a Serve whose blocking call returns without an error returns
    -- none, and one whose blocking call panics leaves the server as it is and returns the error of
    -- the panic; and Destroy behind Shutdown changes neither the server nor the network.
    pub server_refines :
        {v : View} {t : AnyServer S GSrv Lis Dialer Srv Policy} {s : S}
        → Reached v t s
        → let (s', t', _) = shutdown world t s in
          (alive t ≡ (v.serving || v.crashed))
          × (closes t ≡ (if v.closed then 1 else 0))
          × ((v.bound && is_empty_addr (listen_address t)) ≡ false)
          × ((end_serve (returned none) t).1 ≡ none)
          × ((e : Error) → end_serve (panicked e) t ≡ (t, some e))
          × (destroy world t' s' ≡ (s', t', none))
    unfolding destroy
    server_refines {v} {t} {s} r =
        let (a, d, c, h) = Reached-Agrees r in
        let (_, closed, _, _) = shutdown-Agrees world v t s (a, d, c, h) in
        (
          serving-alive t ∙ a,
          c,
          ap (λ x. v.bound && x) (homeless-listen_address t) ∙ h,
          end_serve-none t,
          λ e. end_serve-panicked e t,
          ap (λ x. (x.0, x.1, none))
              (shutdown_of_closed world (shutdown world t s).1 (shutdown world t s).0 closed),
        )
