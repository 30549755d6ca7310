-- ===== src/Grpc/Server.antt =====
-- grpc/grpc_server.go: the server that the runtime binds, serves and shuts down. The network and
-- the *grpc.Server are a record of what the code asks of them; Serve is two steps, before and
-- behind the blocking call.
use Prim.Native.String
use servion.Base.{
  ℕ, suc, String, Bool, true, false, List, [], ◌∷◌, ◌++◌, Option, none, some, ◌⊎◌, inl, inr, any,
  if◌then◌else◌, str_eq,
}
use servion.Text.{is_empty, contains}
use servion.Runner.{Error}
use servion.HttpServer.{Listener, over_tls, wrapped, Blocking, returned, panicked}

-- The parts of *tls.Config that the code reads or changes.
pub record TlsConfig : Type 0 where
  pub next_protos : List String

-- net.Listen, Close of a listener, and GracefulStop and Stop of the server: whether they came to an
-- end within the time that is given to them.
pub record Network (S : Type 0) : Type 0 where
  pub listen : String → S → S × (Error ⊎ Listener)
  pub close_listener : Listener → S → S
  pub graceful_stop : S → S × Bool
  pub stop : S → S × Bool

-- A bean of the class *grpc.Server: its object if it is one.
pub record Bean (Srv : Type 0) : Type 0 where
  pub name : String
  pub object : Option Srv

-- implGrpcServer. `closes` is how often shutdownCh was closed: a second time panics.
pub record GrpcServer (Srv : Type 0) : Type 0 where
  pub bean_name : String
  pub bind_address : String
  pub tls_config : Option TlsConfig
  pub srv : Option Srv
  pub listener : Option Listener
  pub next_protos : List String
  pub alive : Bool
  pub shut_down : Bool
  pub closes : ℕ

unfoldable pub ensure_h2 : TlsConfig → TlsConfig
ensure_h2 cfg =
    if any (λ p. str_eq p "h2") cfg.next_protos
    then cfg
    else record { next_protos = cfg.next_protos ++ "h2" ∷ [] }

plain_error : String → Error
plain_error message = record { message = message; addr_in_use = false }

module _ {S : Type 0} (net : Network S) where
  -- doGracefulStop, and doStop if it takes too long.
  stop_server : S → S
  stop_server s =
      let (s', stopped) = net.graceful_stop s in
      let (forced, _) = net.stop s' in if stopped then s' else forced

  close_bound : Option Listener → S → S
  close_bound none s = s
  close_bound (some ln) s = net.close_listener ln s

module _ {Srv : Type 0} where
  -- The first bean with that name; its error if it is none or no server.
  unfoldable pub resolve : String → List (Bean Srv) → String ⊎ Srv
  resolve bean_name [] =
      inl (String.◌++◌ "grpc.Server bean '" (String.◌++◌ bean_name "' not found in server context"))
  resolve bean_name (b ∷ bs) =
      let rest = resolve bean_name bs in
      if str_eq b.name bean_name
      then elim b.object [
        | none ↦ inl (String.◌++◌ "bean '" (String.◌++◌ bean_name "' is not a *grpc.Server"))
        | some srv ↦ inr srv
      ]
      else rest

  -- GrpcServer, with the value of its bind-address property and its TLS configuration.
  abbrev pub grpc_server : String → String → Option TlsConfig → GrpcServer Srv
  grpc_server bean_name bind_address tls_config = record {
    bean_name = bean_name;
    bind_address = bind_address;
    tls_config = tls_config;
    srv = none;
    listener = none;
    next_protos = [];
    alive = false;
    shut_down = false;
    closes = 0;
  }

  -- PostConstruct
  unfoldable pub post_construct : List (Bean Srv) → GrpcServer Srv → GrpcServer Srv × Option String
  unfolding resolve
  post_construct beans t = elim (resolve t.bean_name beans) [
    | inl e ↦ (record t { alive = false }, some e)
    | inr srv ↦ (record t { alive = false; srv = some srv }, none)
  ]

  -- The listener over TLS, where there is a configuration, which offers "h2".
  unfoldable pub secured : Option TlsConfig → Listener → GrpcServer Srv → GrpcServer Srv
  unfolding ensure_h2
  secured none ln t = record t { listener = some ln }
  secured (some cfg) ln t = record t {
    listener = some (over_tls ln);
    next_protos = (ensure_h2 cfg).next_protos;
  }

  -- Serve, up to the blocking call.
  unfoldable pub begin_serve : GrpcServer Srv → GrpcServer Srv
  begin_serve t = record t { alive = true }

  -- Serve, behind it: a closed socket is no error. A panic skips what follows the call.
  unfoldable pub end_serve : Blocking String → GrpcServer Srv → GrpcServer Srv × Option String
  end_serve (returned none) t = (record t { alive = false }, none)
  end_serve (returned (some message)) t =
      (record t { alive = false }, if contains message "closed" then none else some message)
  end_serve (panicked message) t = (t, some message)

  module _ {S : Type 0} (net : Network S) where
    unfoldable pub bind : GrpcServer Srv → S → S × GrpcServer Srv × Option Error
    unfolding wrapped secured plain_error
    bind t s =
        let (s', made) = net.listen t.bind_address s in
        if is_empty t.bind_address
        then (
          s,
          t,
          some (
              plain_error (
                String.◌++◌ "property '"
                  (String.◌++◌ t.bean_name ".bind-address' not found in server context"))),
        )
        else elim made [
          | inl e ↦ (
            s',
            record t { listener = none },
            some (wrapped "can not bind to '" t.bind_address e),
          )
          | inr ln ↦ (s', secured t.tls_config ln t, none)
        ]

    -- Shutdown, which returns no error.
    unfoldable pub shutdown : GrpcServer Srv → S → S × GrpcServer Srv
    unfolding stop_server close_bound
    shutdown t s = if t.shut_down then (s, t) else (
      close_bound net t.listener (stop_server net s),
      record t { shut_down = true; closes = suc t.closes },
    )
