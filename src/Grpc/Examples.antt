-- ===== src/Grpc/Examples.antt =====
-- Tests of the gRPC module, and its theorems at concrete inputs.
use Prim.Native.String
use servion.Base.{
  ℕ, suc, String, true, false, List, [], ◌∷◌, Option, none, some, ◌≡◌, ◌⊎◌, inr, refl,
  if◌then◌else◌, str_eq, find, arith, eq_iff,
}
use servion.Base.Int.{pos, negsuc}
use servion.Text.{is_space, has_prefix, replace_all, drop_prefix, split, trim_space}
use servion.Http.{Request, AuthInfo, same_key, get}
use servion.Auth.{Authenticator, ok, err, ErrorKind, bearer_token}
use servion.HttpServer.{socket, returned}
use servion.Grpc.{
  Context, Metadata, post_construct, values_of, is_exempt, bearer_from_context,
  get_request_metadata, TokenAuth,
}
use servion.Grpc.Gate.{
  malformed, intercepted, streamed, UnaryHandler, StreamHandler, Passes, Enters, Refused,
  interceptor_gate,
}
use servion.Grpc.SameGate.{BothEnter, BothRefuse, interceptor_middleware}
use servion.Grpc.Tokens.{bearer_from_context-get_request_metadata}
use servion.Grpc.ServerFactory.{Interceptor, GrpcServerFactory, functions, object}
use servion.Grpc.Ordering.{SortedFrom}
use servion.Grpc.Chains.{chained_unary, chained_stream, options_of, names_of, object_assembles}
use servion.Options.{enabled}
use servion.Grpc.Server.{Network, TlsConfig, GrpcServer, grpc_server}
use servion.Grpc.LifeCycle.{
  Call, to_construct, to_bind, to_begin, to_end, to_shut_down, calls, Consistent, calls_keep_h2,
}
use servion.Grpc.Client.{localize_addr}

post_construct_test :
    post_construct " /app.Public/ ,, "
    ≡ "/grpc.health.v1.Health/" ∷ "/grpc.reflection." ∷ "/app.Public/" ∷ []
unfolding post_construct split trim_space
post_construct_test = refl

abbrev ada : AuthInfo
ada = record {
  hashed_token = "#abc";
  subject = "ada";
  scopes = [];
  roles = [];
  issuer = "";
  attributes = [];
}

-- One token is good.
abbrev authenticator : Authenticator ℕ
authenticator token s =
    (suc s, if str_eq token "abc" then ok ada else err ErrorKind.unauthorized "unknown token")

abbrev credentials : TokenAuth
credentials = record { token = "abc"; secure = true }

abbrev metadata : Metadata
metadata = ("user-agent", "grpc-go" ∷ []) ∷ ("authorization", "Bearer abc" ∷ []) ∷ []

abbrev incoming : Context
incoming = record { incoming = some metadata; auth = none }

interceptor_gate_example :
    (has_prefix "/app.Users/Get" "/" ≡ false
      → ((req : ℕ) (handler : UnaryHandler authenticator ℕ ℕ ℕ ℕ)
          → intercepted authenticator ℕ ℕ ℕ ℕ "" incoming "/app.Users/Get" 0 req handler
            ≡ (0, none, some malformed))
        × ((srv inner : ℕ) (handler : StreamHandler authenticator ℕ ℕ ℕ ℕ)
            → streamed authenticator ℕ ℕ ℕ ℕ "" incoming "/app.Users/Get" 0 srv inner handler
              ≡ (0, some malformed)))
    × ((has_prefix "/app.Users/Get" "/" ≡ true
          × Passes authenticator ℕ ℕ ℕ ℕ "" incoming "/app.Users/Get" 0)
        ⊎ (Enters authenticator ℕ ℕ ℕ ℕ "" incoming "/app.Users/Get" 0
            ⊎ Refused authenticator ℕ ℕ ℕ ℕ "" incoming "/app.Users/Get" 0))
interceptor_gate_example = interceptor_gate authenticator ℕ ℕ ℕ ℕ "" incoming "/app.Users/Get" 0

abbrev asking : Request
asking = record {
  method = "GET";
  path = "/users";
  header = ("Authorization", "Bearer abc") ∷ [];
  body = [];
  remote_addr = "10.0.0.1:80";
  auth = none;
  request_id = none;
}

interceptor_middleware_example :
    BothEnter authenticator ℕ ℕ ℕ ℕ (post_construct "") incoming "/app.Users/Get" asking 0
    ⊎ BothRefuse authenticator ℕ ℕ ℕ ℕ (post_construct "") incoming "/app.Users/Get" asking 0
unfolding has_prefix is_exempt post_construct values_of same_key split trim_space find get
interceptor_middleware_example =
    interceptor_middleware authenticator ℕ ℕ ℕ ℕ (post_construct "") incoming "/app.Users/Get"
      asking 0 metadata [] refl refl refl refl (ground (arith, eq_iff "GET" "OPTIONS"))

bearer_from_context-get_request_metadata_example :
    (bearer_token (String.◌++◌ "Bearer " "abc") ≡ some "abc")
    × (bearer_from_context incoming ≡ inr "abc")
unfolding is_space values_of get_request_metadata find
bearer_from_context-get_request_metadata_example =
    bearer_from_context-get_request_metadata credentials incoming metadata
      (refl, (refl, (refl, (refl, tt)))) refl (refl, tt)

abbrev by_name : String → String → String
by_name key default = if str_eq key "grpc-server.options" then "health" else default

abbrev factory : GrpcServerFactory ℕ ℕ
factory = record {
  bean_name = "grpc-server";
  properties = record {
    get_string = by_name;
    get_int = λ key default. default;
    get_duration = λ key default. default;
  };
  services = ("app.Users" ∷ []) ∷ ("app.Groups" ∷ "app.Roles" ∷ []) ∷ [];
  unary =
      record { bean_order = pos 10; function = some 1 }
      ∷ record { bean_order = negsuc 4; function = some 2 }
      ∷ record { bean_order = pos 10; function = some 3 }
      ∷ record { bean_order = pos 3; function = none }
      ∷ [];
  stream = [];
}

object_assembles_example :
    ((sorted : List (Interceptor ℕ)) × SortedFrom factory.unary sorted
      × (chained_unary (object factory).options ≡ functions sorted))
    × ((sorted : List (Interceptor ℕ)) × SortedFrom factory.stream sorted
        × (chained_stream (object factory).options ≡ functions sorted))
    × ((object factory).serving ≡ (
        if enabled (options_of factory) "health"
        then some ("" ∷ names_of factory.services)
        else none))
object_assembles_example = object_assembles factory

-- The state counts the sockets; the graceful stop takes too long.
abbrev network : Network ℕ
network = record {
  listen = λ addr s. (suc s, inr (socket s));
  close_listener = λ ln s. s;
  graceful_stop = λ s. (s, false);
  stop = λ s. (s, true);
}

abbrev tls : Option TlsConfig
tls = some (record { next_protos = "http/1.1" ∷ [] })

abbrev life : List (Call ℕ)
life =
    to_construct (record { name = "grpc-server"; object = some 7 } ∷ [])
    ∷ to_bind
    ∷ to_begin
    ∷ to_shut_down
    ∷ to_end (returned none)
    ∷ to_shut_down
    ∷ []

abbrev retired : GrpcServer ℕ
retired = (calls network life (grpc_server "grpc-server" ":9090" tls, 0)).0

calls_keep_h2_example : (retired.closes ≡ 1) × Consistent retired
calls_keep_h2_example = calls_keep_h2 network "grpc-server" ":9090" tls life 0

localize_addr_test : localize_addr "0.0.0.0:9090" ≡ "127.0.0.1:9090"
unfolding localize_addr has_prefix drop_prefix
localize_addr_test = refl

replace_all_test : replace_all "my-client-client" "client" "server" ≡ "my-server-server"
unfolding replace_all
replace_all_test = refl
