-- ===== src/Servers.antt =====
-- api.go: the interface Server, which the runner calls without knowing the class behind it, over
-- its three implementations: http_server.go, grpc/grpc_server.go and vrpc/value_server.go.
mod Binding
mod Steps
pub mod Contract
pub mod Together
mod Members
pub mod Bound
pub mod Ended
mod Examples
use servion.Base.{String, Bool, true, false, not, List, Option, none, some, ◌⊎◌, inl, inr}
use servion.Runner.{Error}
use servion.Factory.{Properties}
use servion.HttpServer.{
  Listener, HttpServer, Blocking, returned, panicked, bind as bind_http, begin_serve as begin_http,
  end_serve as end_http, shutdown as shutdown_http,
}
use servion.HttpServer
use servion.Grpc.Server.{
  GrpcServer, bind as bind_grpc, begin_serve as begin_grpc, end_serve as end_grpc,
  shutdown as shutdown_grpc,
}
use servion.Grpc.Server
use servion.Vrpc.{
  Library, ValueServer, ValueService, Transport, bind as bind_vrpc, begin_serve as begin_vrpc,
  end_serve as end_vrpc, shutdown as shutdown_vrpc,
}

-- The value behind the interface.
pub data AnyServer (S GSrv Lis Dialer Srv Policy : Type 0) : Type 0 where
  http : HttpServer → AnyServer S GSrv Lis Dialer Srv Policy
  grpc : GrpcServer GSrv → AnyServer S GSrv Lis Dialer Srv Policy
  vrpc : ValueServer S Lis Dialer Srv Policy → AnyServer S GSrv Lis Dialer Srv Policy

-- net.Addr: EmptyAddr, the address of a listener, or of a value-rpc server.
pub data Addr (Srv : Type 0) : Type 0 where
  empty_addr : Addr Srv
  addr_of_listener : Listener → Addr Srv
  addr_of_server : Srv → Addr Srv

abbrev pub is_empty_addr : {Srv : Type 0} → Addr Srv → Bool
is_empty_addr empty_addr = true
is_empty_addr (addr_of_listener ln) = false
is_empty_addr (addr_of_server srv) = false

-- ListenAddress of the HTTP and of the gRPC server.
unfoldable pub listener_address : {Srv : Type 0} → Option Listener → Addr Srv
listener_address none = empty_addr
listener_address (some ln) = addr_of_listener ln

-- ListenAddress of the value-rpc server.
unfoldable pub server_address : {Srv : Type 0} → Option Srv → Addr Srv
server_address none = empty_addr
server_address (some srv) = addr_of_server srv

-- ValueServer, with what is injected into it.
abbrev pub value_server :
    {S Lis Dialer Srv Policy : Type 0}
    → String
    → Properties
    → List (ValueService S Srv)
    → Bool × Bool
    → Option Policy
    → Option (Transport S Lis Dialer)
    → ValueServer S Lis Dialer Srv Policy
value_server bean_name properties services (authorizer, authenticator) obfs transport = record {
  bean_name = bean_name;
  properties = properties;
  services = services;
  authorizer = authorizer;
  authenticator = authenticator;
  obfs = obfs;
  transport = transport;
  srv = none;
  alive = false;
  shut_down = false;
  closes = 0;
}

-- What the servers ask of the network and of their libraries.
pub record World (S Base Conn Lis Srv Policy : Type 0) : Type 0 where
  pub http_network : HttpServer.Network S
  pub grpc_network : Server.Network S
  pub library : Library S Base Conn Lis Srv Policy

message_of : Blocking Error → Blocking String
message_of (returned none) = returned none
message_of (returned (some e)) = returned (some e.message)
message_of (panicked e) = panicked e.message

-- Serve returns the error that it does not filter.
unfiltered : Option String → Blocking Error → Option Error
unfiltered none blocked = none
unfiltered (some message) (returned result) = result
unfiltered (some message) (panicked e) = some e

module _ {S GSrv Lis Dialer Srv Policy : Type 0} where
  -- Alive
  unfoldable pub alive : AnyServer S GSrv Lis Dialer Srv Policy → Bool
  alive (http t) = t.alive
  alive (grpc t) = t.alive
  alive (vrpc t) = t.alive

  -- ListenAddress
  unfoldable pub listen_address : AnyServer S GSrv Lis Dialer Srv Policy → Addr Srv
  unfolding listener_address server_address
  listen_address (http t) = listener_address t.listener
  listen_address (grpc t) = listener_address t.listener
  listen_address (vrpc t) = server_address t.srv

  -- Serve, up to the blocking call, and the error that comes before it.
  unfoldable pub begin_serve :
      AnyServer S GSrv Lis Dialer Srv Policy → AnyServer S GSrv Lis Dialer Srv Policy × Option Error
  begin_serve (http t) = (http (begin_http t), none)
  begin_serve (grpc t) = (grpc (begin_grpc t), none)
  begin_serve (vrpc t) = let (t', failed) = begin_vrpc t in (vrpc t', failed)

  -- Serve, behind it: how the blocking call came back, and what Serve returns.
  unfoldable pub end_serve :
      Blocking Error
      → AnyServer S GSrv Lis Dialer Srv Policy
      → AnyServer S GSrv Lis Dialer Srv Policy × Option Error
  unfolding message_of unfiltered
  end_serve blocked (http t) =
      let (t', failed) = end_http (message_of blocked) t in (http t', unfiltered failed blocked)
  end_serve blocked (grpc t) =
      let (t', failed) = end_grpc (message_of blocked) t in (grpc t', unfiltered failed blocked)
  end_serve blocked (vrpc t) = let (t', failed) = end_vrpc blocked t in (vrpc t', failed)

module _ {S GSrv Base Conn Lis Dialer Srv Policy : Type 0}
    (world : World S Base Conn Lis Srv Policy) where
  -- Bind
  unfoldable pub bind :
      AnyServer S GSrv Lis Dialer Srv Policy
      → S
      → S × AnyServer S GSrv Lis Dialer Srv Policy × Option Error
  bind (http t) s = let (s', t', failed) = bind_http world.http_network t s in (s', http t', failed)
  bind (grpc t) s = let (s', t', failed) = bind_grpc world.grpc_network t s in (s', grpc t', failed)
  bind (vrpc t) s = let (s', t', failed) = bind_vrpc world.library t s in (s', vrpc t', failed)

  -- Shutdown
  unfoldable pub shutdown :
      AnyServer S GSrv Lis Dialer Srv Policy
      → S
      → S × AnyServer S GSrv Lis Dialer Srv Policy × Option Error
  shutdown (http t) s =
      let (s', t', failed) = shutdown_http world.http_network t s in (s', http t', failed)
  shutdown (grpc t) s = let (s', t') = shutdown_grpc world.grpc_network t s in (s', grpc t', none)
  shutdown (vrpc t) s =
      let (s', t', failed) = shutdown_vrpc world.library t s in (s', vrpc t', failed)

  -- Destroy, which drops the error of Shutdown.
  unfoldable pub destroy :
      AnyServer S GSrv Lis Dialer Srv Policy
      → S
      → S × AnyServer S GSrv Lis Dialer Srv Policy × Option Error
  unfolding shutdown
  destroy t s = let (s', t', _) = shutdown t s in (s', t', none)
