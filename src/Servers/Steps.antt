-- ===== src/Servers/Steps.antt =====
-- The flags of a server behind the interface, and what each of its operations does to them.
use servion.Base.{
  ℕ, suc, Bool, true, false, ◌&&◌, ◌||◌, Option, none, some, inl, inr, ◌≡◌, refl, ap, sym, ◌∙◌,
  if◌then◌else◌, Bool-cases, Option-cases, arith,
}
use servion.Runner.{Error}
use servion.HttpServer.{
  Listener, over, Blocking, returned, panicked, begin_serve as begin_http, end_serve as end_http,
  shutdown as shutdown_http,
}
use servion.Grpc.Server.{
  begin_serve as begin_grpc, end_serve as end_grpc, shutdown as shutdown_grpc,
}
use servion.Vrpc.{begin_serve as begin_vrpc, end_serve as end_vrpc, shutdown as shutdown_vrpc}
use servion.Servers.{
  AnyServer, http, grpc, vrpc, is_empty_addr, listener_address, server_address, World, alive,
  listen_address, begin_serve, end_serve, bind, shutdown,
}
use servion.Servers.Binding.{
  Flags, Binds, is_absent, flags_http, flags_grpc, flags_vrpc, http-Binds, grpc-Binds, vrpc-Binds,
}

-- The abstract server: the last Bind succeeded, Serve has not returned, the last Serve that
-- returned did it by a panic, Shutdown was called.
pub record View : Type 0 where
  pub bound : Bool
  pub serving : Bool
  pub crashed : Bool
  pub closed : Bool

abbrev pub fresh : View
fresh = record { bound = false; serving = false; crashed = false; closed = false }

-- A server is alive in Serve and behind a Serve that panicked; its channel is closed once if
-- Shutdown was called; it has an address if it is bound.
abbrev pub Agrees : View → Flags → Type 0
Agrees v f =
    (f.serving ≡ (v.serving || v.crashed))
    × (f.closed ≡ v.closed)
    × (f.closes ≡ (if v.closed then 1 else 0))
    × ((v.bound && f.homeless) ≡ false)

-- How the blocking call came back.
abbrev pub is_panic : {E : Type 0} → Blocking E → Bool
is_panic (returned result) = false
is_panic (panicked e) = true

-- What is left of the abstract server when Serve has returned.
abbrev pub behind_serve : Blocking Error → View → View
behind_serve blocked v = record v { serving = false; crashed = is_panic blocked }

closed_before :
    {b closed : Bool} {n : ℕ} → b ≡ closed → n ≡ (if closed then 1 else 0) → b ≡ true → n ≡ 1
closed_before d c y = rw (sym d ∙ y) at c

closed_now :
    {b closed : Bool} {n : ℕ} → b ≡ closed → n ≡ (if closed then 1 else 0) → b ≡ false → suc n ≡ 1
closed_now d c y = ap suc (rw (sym d ∙ y) at c)

still_alive :
    {b serving : Bool} (crashed : Bool) → serving ≡ true → b ≡ (serving || crashed) → b ≡ true
still_alive crashed r a = ground (arith, r, a)

homeless_unbound : {b : Bool} → b ≡ true → (b && true) ≡ false → ⊥
homeless_unbound y h = cc

homeless_listener :
    (Srv : Type 0) (l : Option Listener)
    → is_empty_addr {Srv = Srv} (listener_address l) ≡ is_absent l
unfolding listener_address
homeless_listener Srv none = refl
homeless_listener Srv (some ln) = refl

homeless_server : {Srv : Type 0} (o : Option Srv) → is_empty_addr (server_address o) ≡ is_absent o
unfolding server_address
homeless_server none = refl
homeless_server (some srv) = refl

is_absent-over : (tls : Bool) (l : Option Listener) → is_absent (over tls l) ≡ is_absent l
unfolding over
is_absent-over true none = refl
is_absent-over false none = refl
is_absent-over true (some ln) = refl
is_absent-over false (some ln) = refl

module _ {S GSrv Lis Dialer Srv Policy : Type 0} where
  unfoldable pub flags : AnyServer S GSrv Lis Dialer Srv Policy → Flags
  flags (http t) = flags_http t
  flags (grpc t) = flags_grpc t
  flags (vrpc t) = flags_vrpc t

  -- Serve of a bound server runs, and is alive.
  pub begin_serve-Agrees :
      (v : View) (t : AnyServer S GSrv Lis Dialer Srv Policy)
      → v.bound ≡ true
      → Agrees v (flags t)
      → Agrees (record v { serving = true }) (flags (begin_serve t).0)
  unfolding flags begin_serve begin_http begin_grpc begin_vrpc
  begin_serve-Agrees v (http t) b (a, d, c, h) =
      (refl, d, c, ap (λ x. v.bound && x) (is_absent-over t.tls t.listener) ∙ h)
  begin_serve-Agrees v (grpc t) b (a, d, c, h) = (refl, d, c, h)
  begin_serve-Agrees v (vrpc t) b (a, d, c, h) = elim (Option-cases t.srv) [
    | inl n ↦ absurd (homeless_unbound b (rw n at h))
    | inr (srv, e) ↦ rw (e, begin_serve, begin_vrpc) (refl, d, c, h)
  ]

  pub end_serve-Agrees :
      (v : View) (blocked : Blocking Error) (t : AnyServer S GSrv Lis Dialer Srv Policy)
      → v.serving ≡ true
      → Agrees v (flags t)
      → Agrees (behind_serve blocked v) (flags (end_serve blocked t).0)
  unfolding flags end_serve end_http end_grpc end_vrpc
  end_serve-Agrees v (returned none) (http t) r (a, d, c, h) = (refl, d, c, h)
  end_serve-Agrees v (returned (some e)) (http t) r (a, d, c, h) = (refl, d, c, h)
  end_serve-Agrees v (panicked e) (http t) r (a, d, c, h) = (still_alive v.crashed r a, d, c, h)
  end_serve-Agrees v (returned none) (grpc t) r (a, d, c, h) = (refl, d, c, h)
  end_serve-Agrees v (returned (some e)) (grpc t) r (a, d, c, h) = (refl, d, c, h)
  end_serve-Agrees v (panicked e) (grpc t) r (a, d, c, h) = (still_alive v.crashed r a, d, c, h)
  end_serve-Agrees v (returned result) (vrpc t) r (a, d, c, h) = (refl, d, c, h)
  end_serve-Agrees v (panicked e) (vrpc t) r (a, d, c, h) = (still_alive v.crashed r a, d, c, h)

  pub homeless-listen_address :
      (t : AnyServer S GSrv Lis Dialer Srv Policy)
      → is_empty_addr (listen_address t) ≡ (flags t).homeless
  unfolding flags listen_address listener_address server_address
  homeless-listen_address (http t) = homeless_listener Srv t.listener
  homeless-listen_address (grpc t) = homeless_listener Srv t.listener
  homeless-listen_address (vrpc t) = homeless_server t.srv

  pub end_serve-panicked :
      (e : Error) (t : AnyServer S GSrv Lis Dialer Srv Policy)
      → end_serve (panicked e) t ≡ (t, some e)
  unfolding end_serve end_http end_grpc end_vrpc
  end_serve-panicked e (http t) = refl
  end_serve-panicked e (grpc t) = refl
  end_serve-panicked e (vrpc t) = refl

  pub end_serve-none :
      (t : AnyServer S GSrv Lis Dialer Srv Policy) → (end_serve (returned none) t).1 ≡ none
  unfolding end_serve end_http end_grpc end_vrpc
  end_serve-none (http t) = refl
  end_serve-none (grpc t) = refl
  end_serve-none (vrpc t) = refl

  pub serving-alive : (t : AnyServer S GSrv Lis Dialer Srv Policy) → alive t ≡ (flags t).serving
  unfolding alive flags
  serving-alive (http t) = refl
  serving-alive (grpc t) = refl
  serving-alive (vrpc t) = refl

  module _ {Base Conn : Type 0} (world : World S Base Conn Lis Srv Policy) where
    pub bind-Binds :
        (t : AnyServer S GSrv Lis Dialer Srv Policy) (s : S)
        → let r = bind world t s in Binds (flags t) (flags r.1) r.2
    unfolding bind flags
    bind-Binds (http t) s = http-Binds world.http_network t s
    bind-Binds (grpc t) s = grpc-Binds world.grpc_network t s
    bind-Binds (vrpc t) s = vrpc-Binds world.library t s

    pub shutdown-Agrees :
        (v : View) (t : AnyServer S GSrv Lis Dialer Srv Policy) (s : S)
        → Agrees v (flags t)
        → Agrees (record v { closed = true }) (flags (shutdown world t s).1)
    unfolding flags shutdown shutdown_http shutdown_grpc shutdown_vrpc
    shutdown-Agrees v (http t) s (a, d, c, h) = elim (Bool-cases t.shut_down) [
      | inl y ↦ rw (y, shutdown, shutdown_http) (a, refl, closed_before d c y, h)
      | inr n ↦ rw (n, shutdown, shutdown_http) (a, refl, closed_now d c n, h)
    ]
    shutdown-Agrees v (grpc t) s (a, d, c, h) = elim (Bool-cases t.shut_down) [
      | inl y ↦ rw (y, shutdown, shutdown_grpc) (a, refl, closed_before d c y, h)
      | inr n ↦ rw (n, shutdown, shutdown_grpc) (a, refl, closed_now d c n, h)
    ]
    shutdown-Agrees v (vrpc t) s (a, d, c, h) = elim (Bool-cases t.shut_down) [
      | inl y ↦ rw (y, shutdown, shutdown_vrpc) (a, refl, closed_before d c y, h)
      | inr n ↦ rw (n, shutdown, shutdown_vrpc) (a, refl, closed_now d c n, h)
    ]

    -- Shutdown and Destroy of a server that is closed do nothing.
    pub shutdown_of_closed :
        (t : AnyServer S GSrv Lis Dialer Srv Policy) (s : S)
        → (flags t).closed ≡ true
        → shutdown world t s ≡ (s, t, none)
    unfolding flags shutdown shutdown_http shutdown_grpc shutdown_vrpc
    shutdown_of_closed (http t) s e = rw (e, shutdown, shutdown_http) refl
    shutdown_of_closed (grpc t) s e = rw (e, shutdown, shutdown_grpc) refl
    shutdown_of_closed (vrpc t) s e = rw (e, shutdown, shutdown_vrpc) refl
