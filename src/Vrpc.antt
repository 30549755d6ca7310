-- ===== src/Vrpc.antt =====
-- vrpc/value_server.go and vrpc/obfs.go: the value-rpc server that the runtime binds, serves and
-- shuts down, and the choice of its transport. The library value-rpc, the obfuscation and the
-- network are a record of what the code asks of them; Serve is two steps, before and behind Run.
pub mod Client
pub mod Resilience
pub mod Shaped
pub mod Layers
pub mod Addresses
mod Examples
use Prim.Native.String
use servion.Base.{
  ℕ, suc, String, Bool, true, false, not, ◌||◌, List, [], ◌∷◌, Option, none, some, ◌⊎◌, inl, inr,
  if◌then◌else◌, str_eq,
}
use servion.Text.{is_empty}
use servion.Runner.{Error}
use servion.HttpServer.{wrapped, Blocking, returned, panicked}
use servion.Factory.{Properties}

-- A bean of the interface Transport: its Listener and its Dialer, for an address and a timeout.
pub record Transport (S Lis Dialer : Type 0) : Type 0 where
  pub listener : String → ℕ → S → S × (Error ⊎ Lis)
  pub dialer : String → ℕ → S → S × (Error ⊎ Dialer)

-- valuerpc, valueserver, obfs and net.
pub record Library (S Base Conn Lis Srv Policy : Type 0) : Type 0 where
  -- valuerpc.ParseAddress: the network and the address.
  pub parse_address : String → String × String
  pub net_listen : String → String → S → S × (Error ⊎ Base)
  -- obfs.Listener, a net.Listener over another; Accept, Addr and Close of a net.Listener.
  pub shape : Base → Policy → Base
  pub accept_from : Base → S → S × (Error ⊎ Conn)
  pub addr_of : Base → String
  pub close_base : Base → S → S × Option Error
  -- valuerpc.NewAcceptListener: how it accepts, its address, how it closes, and the write timeout.
  pub accept_listener : (S → S × (Error ⊎ Conn)) → String → (S → S × Option Error) → ℕ → Lis
  -- valuerpc.NewListener: the address, the keep-alive period and the write timeout.
  pub new_listener : String → ℕ → ℕ → S → S × (Error ⊎ Lis)
  pub close_listener : Lis → S → S
  -- valueserver.NewServerWithListener
  pub new_server : Lis → S → S × (Error ⊎ Srv)
  pub set_connect_authorizer : Srv → S → S
  pub set_authenticator : Srv → S → S
  pub close : Srv → S → S × Option Error
  pub keep_alive_period : ℕ
  pub default_timeout : ℕ

-- A bean of the interface ValueService, with the name of its type.
pub record ValueService (S Srv : Type 0) : Type 0 where
  pub type_name : String
  pub register_functions : Srv → S → S × Option Error

-- implValueServer. Of the authorizer and the authenticator it matters whether there is one.
-- `closes` is how often shutdownCh was closed.
pub record ValueServer (S Lis Dialer Srv Policy : Type 0) : Type 0 where
  pub bean_name : String
  pub properties : Properties
  pub services : List (ValueService S Srv)
  pub authorizer : Bool
  pub authenticator : Bool
  pub obfs : Option Policy
  pub transport : Option (Transport S Lis Dialer)
  pub srv : Option Srv
  pub alive : Bool
  pub shut_down : Bool
  pub closes : ℕ

abbrev pub plain_error : String → Error
plain_error message = record { message = message; addr_in_use = false }

abbrev pub is_stream : String → Bool
is_stream network =
    str_eq network "tcp"
    || str_eq network "tcp4"
    || str_eq network "tcp6"
    || str_eq network "unix"
    || str_eq network "unixpacket"

abbrev pub not_streamed : String → Error
not_streamed network =
    plain_error
      (String.◌++◌ "obfs shaping requires a stream transport (tcp:// or unix://), not " network)

-- streamNetwork, behind valuerpc.ParseAddress.
unfoldable pub stream_network : String × String → Error ⊎ (String × String)
stream_network (network, addr) =
    if is_stream network then inr (network, addr) else inl (not_streamed network)

registering : String → Error → Error
registering type_name e = record {
  message =
      String.◌++◌ "registering value service " (String.◌++◌ type_name (String.◌++◌ ": " e.message));
  addr_in_use = e.addr_in_use;
}

-- The services register in their order, up to the first that fails.
unfoldable pub register_all :
    {S Srv : Type 0} → List (ValueService S Srv) → Srv → S → S × Option Error
unfolding registering
register_all [] srv s = (s, none)
register_all (svc ∷ svcs) srv s =
    let (s', failed) = svc.register_functions srv s in
    let rest = register_all svcs srv s' in
    elim failed [ some e ↦ (s', some (registering svc.type_name e)) | none ↦ rest ]

module _ {S Base Conn Lis Srv Policy : Type 0} (library : Library S Base Conn Lis Srv Policy) where
  unfoldable pub obfs_listener : String → Policy → ℕ → S → S × (Error ⊎ Lis)
  unfolding stream_network
  obfs_listener address policy write_timeout s =
      elim (stream_network (library.parse_address address)) [
        | inl e ↦ (s, inl e)
        | inr (network, addr) ↦
            let (s', made) = library.net_listen network addr s in
            elim made [
              | inl e ↦ (s', inl e)
              | inr base ↦
                  let shaped = library.shape base policy in
                  (
                    s',
                    inr (
                        library.accept_listener (library.accept_from shaped) (library.addr_of base)
                          (library.close_base base) write_timeout),
                  )
            ]
      ]

  close_server : Option Srv → S → S × Option Error
  close_server none s = (s, none)
  close_server (some srv) s = library.close srv s

module _ {S Base Conn Lis Dialer Srv Policy : Type 0}
    (library : Library S Base Conn Lis Srv Policy) where
  unfoldable pub duration : ValueServer S Lis Dialer Srv Policy → String → ℕ → ℕ
  duration t name default =
      t.properties.get_duration (String.◌++◌ t.bean_name (String.◌++◌ "." name)) default

  -- The switch of Bind: a Transport bean comes before an ObfsProfile bean.
  unfoldable pub listener_of : ValueServer S Lis Dialer Srv Policy → String → S → S × (Error ⊎ Lis)
  unfolding obfs_listener duration
  listener_of t addr s =
      let keep_alive = duration t "keep-alive" library.keep_alive_period in
      let write_timeout = duration t "write-timeout" library.default_timeout in
      elim t.transport [
        | some transport ↦ transport.listener addr write_timeout s
        | none ↦ elim t.obfs [
          | some policy ↦ obfs_listener library addr policy write_timeout s
          | none ↦ library.new_listener addr keep_alive write_timeout s
        ]
      ]

  -- Bind, behind the server's creation.
  pub install : ValueServer S Lis Dialer Srv Policy → Srv → S → S × Option Error
  unfolding register_all
  install t srv s =
      let s = if t.authorizer then library.set_connect_authorizer srv s else s in
      let s = if t.authenticator then library.set_authenticator srv s else s in
      register_all t.services srv s

  -- Bind
  unfoldable pub bind :
      ValueServer S Lis Dialer Srv Policy
      → S
      → S × ValueServer S Lis Dialer Srv Policy × Option Error
  unfolding listener_of install wrapped
  bind t s =
      let addr = t.properties.get_string (String.◌++◌ t.bean_name ".bind-address") "" in
      let (s', made) = listener_of t addr s in
      if is_empty addr
      then (
        s,
        t,
        some (
            plain_error (
              String.◌++◌ "property '"
                (String.◌++◌ t.bean_name ".bind-address' not found in server context"))),
      )
      else elim made [
        | inl e ↦ (s', t, some (wrapped "can not bind to '" addr e))
        | inr lis ↦
            let (s'', created) = library.new_server lis s' in
            elim created [
              | inl e ↦ (library.close_listener lis s'', t, some e)
              | inr srv ↦
                  let (s3, failed) = install t srv s'' in (s3, record t { srv = some srv }, failed)
            ]
      ]

  -- Shutdown
  unfoldable pub shutdown :
      ValueServer S Lis Dialer Srv Policy
      → S
      → S × ValueServer S Lis Dialer Srv Policy × Option Error
  unfolding close_server
  shutdown t s =
      let (s', failed) = close_server library t.srv s in
      if t.shut_down
      then (s, t, none)
      else (s', record t { shut_down = true; closes = suc t.closes }, failed)

module _ {S Lis Dialer Srv Policy : Type 0} where
  -- Serve, up to the blocking Run; it does not run on a server that is not bound.
  unfoldable pub begin_serve :
      ValueServer S Lis Dialer Srv Policy → ValueServer S Lis Dialer Srv Policy × Option Error
  begin_serve t = elim t.srv [
    | none ↦ (
      t,
      some (plain_error (String.◌++◌ "value server '" (String.◌++◌ t.bean_name "' is not bound"))),
    )
    | some srv ↦ (record t { alive = true }, none)
  ]

  -- Serve, behind it. A panic skips what follows the call.
  unfoldable pub end_serve :
      Blocking Error
      → ValueServer S Lis Dialer Srv Policy
      → ValueServer S Lis Dialer Srv Policy × Option Error
  end_serve (returned result) t = (record t { alive = false }, result)
  end_serve (panicked e) t = (t, some e)
