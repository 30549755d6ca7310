-- ===== src/Grpc/ServerFactory.antt =====
-- grpc/grpc_server_factory.go and grpc/health.go: the gRPC server that is built from the beans. A
-- *grpc.Server is what the program gave to it: its options, and the names of its services in the
-- order of their registration.
use Prim.Native.String
use servion.Base.{String, Bool, true, false, List, [], ◌∷◌, ◌++◌, Option, none, some, if◌then◌else◌}
use servion.Base.Int.{ℤ, pos, below, exceeds}
use servion.Options.{parse_options, enabled}
use servion.Factory.{Properties}

-- A bean that contributes an interceptor, or none when its function is nil.
pub record Interceptor (F : Type 0) : Type 0 where
  pub bean_order : ℤ
  pub function : Option F

pub data ServerOption (U V : Type 0) : Type 0 where
  max_recv_msg_size : ℤ → ServerOption U V
  max_send_msg_size : ℤ → ServerOption U V
  chain_unary_interceptor : List U → ServerOption U V
  chain_stream_interceptor : List V → ServerOption U V

-- *grpc.Server. `serving` are the names that the health service reports as SERVING, where it is
-- installed; `reflection` says that reflection.Register was called, whose services are not listed.
pub record GrpcServer (U V : Type 0) : Type 0 where
  pub options : List (ServerOption U V)
  pub services : List String
  pub serving : Option (List String)
  pub reflection : Bool

-- implGrpcServerFactory. A service is the names that its RegisterGrpc registers.
pub record GrpcServerFactory (U V : Type 0) : Type 0 where
  pub bean_name : String
  pub properties : Properties
  pub services : List (List String)
  pub unary : List (Interceptor U)
  pub stream : List (Interceptor V)

module _ {F : Type 0} where
  unfoldable pub insert : Interceptor F → List (Interceptor F) → List (Interceptor F)
  insert x [] = x ∷ []
  insert x (y ∷ ys) =
      let rest = insert x ys in if below y.bean_order x.bean_order then y ∷ rest else x ∷ y ∷ ys

  -- sort.SliceStable by BeanOrder.
  unfoldable pub sort_stable : List (Interceptor F) → List (Interceptor F)
  unfolding insert
  sort_stable [] = []
  sort_stable (x ∷ xs) = insert x (sort_stable xs)

  unfoldable pub functions : List (Interceptor F) → List F
  functions [] = []
  functions (x ∷ xs) = elim x.function [ none ↦ functions xs | some f ↦ f ∷ functions xs ]

  -- unaryInterceptors, streamInterceptors
  unfoldable pub interceptors : List (Interceptor F) → List F
  unfolding sort_stable functions
  interceptors list = functions (sort_stable list)

module _ {U V : Type 0} where
  abbrev pub register_grpc : List String → GrpcServer U V → GrpcServer U V
  register_grpc names srv = record srv { services = srv.services ++ names }

  unfoldable pub register_all : List (List String) → GrpcServer U V → GrpcServer U V
  register_all [] srv = srv
  register_all (svc ∷ svcs) srv = register_all svcs (register_grpc svc srv)

  unfoldable pub register_health : GrpcServer U V → GrpcServer U V
  register_health srv =
      register_grpc ("grpc.health.v1.Health" ∷ [])
        (record srv { serving = some ("" ∷ srv.services) })

  unfoldable pub size_option : (ℤ → ServerOption U V) → ℤ → List (ServerOption U V)
  size_option option n = if exceeds n 0 then option n ∷ [] else []

  unfoldable pub unary_option : List U → List (ServerOption U V)
  unary_option [] = []
  unary_option (f ∷ fs) = chain_unary_interceptor (f ∷ fs) ∷ []

  unfoldable pub stream_option : List V → List (ServerOption U V)
  stream_option [] = []
  stream_option (f ∷ fs) = chain_stream_interceptor (f ∷ fs) ∷ []

  unfoldable pub property_name : GrpcServerFactory U V → String → String
  property_name t name = String.◌++◌ t.bean_name (String.◌++◌ "." name)

  -- The options of Object, in their order.
  unfoldable pub server_options : GrpcServerFactory U V → List (ServerOption U V)
  unfolding size_option unary_option stream_option interceptors property_name
  server_options t =
      size_option max_recv_msg_size
        (t.properties.get_int (property_name t "max-recv-msg-size") (pos 0))
      ++ size_option max_send_msg_size
          (t.properties.get_int (property_name t "max-send-msg-size") (pos 0))
      ++ unary_option (interceptors t.unary)
      ++ stream_option (interceptors t.stream)

  -- Object
  unfoldable pub object : GrpcServerFactory U V → GrpcServer U V
  unfolding server_options register_all register_health enabled property_name
  object t =
      let options = parse_options (t.properties.get_string (property_name t "options") "") in
      let new : GrpcServer U V = record {
        options = server_options t;
        services = [];
        serving = none;
        reflection = false;
      } in
      let srv = register_all t.services new in
      let srv' = if enabled options "health" then register_health srv else srv in
      if enabled options "reflection" then record srv' { reflection = true } else srv'
