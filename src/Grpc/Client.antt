-- ===== src/Grpc/Client.antt =====
-- grpc/grpc_client_factory.go: the address and the options of the client. grpc.Dial is an argument.
use Prim.Native.String
use servion.Base.{
  String, Bool, not, List, [], ◌∷◌, ◌++◌, Option, none, some, ◌⊎◌, inl, if◌then◌else◌,
}
use servion.Base.Int.{ℤ, pos, exceeds}
use servion.Text.{is_empty, has_prefix, drop_prefix, replace_all}
use servion.Factory.{Properties}
use servion.Grpc.{TokenAuth}

-- The credentials of the transport: those of the TLS configuration, or none.
pub data TransportCredentials : Type 0 where
  over_tls : TransportCredentials
  insecure : TransportCredentials

pub data DialOption : Type 0 where
  with_transport_credentials : TransportCredentials → DialOption
  with_max_call_recv_msg_size : ℤ → DialOption
  with_per_rpc_credentials : TokenAuth → DialOption

-- implGrpcClientFactory
pub record GrpcClientFactory : Type 0 where
  pub bean_name : String
  pub properties : Properties
  pub tls_config : Bool

unfoldable pub localize_addr : String → String
localize_addr bind_addr =
    if has_prefix bind_addr "0.0.0.0:"
    then String.◌++◌ "127.0.0.1" (drop_prefix bind_addr "0.0.0.0")
    else if has_prefix bind_addr ":"
    then String.◌++◌ "127.0.0.1" bind_addr
    else bind_addr

abbrev pub property_of : Properties → String → String → String
property_of properties bean name =
    properties.get_string (String.◌++◌ bean (String.◌++◌ "." name)) ""

-- The part of Object that finds the address; `localize` is localizeAddr. None is the error that
-- neither property is found.
unfoldable pub connect_addr : (String → String) → Properties → String → Option String
connect_addr localize properties bean_name =
    let given = property_of properties bean_name "connect-address" in
    let bind_addr =
      property_of properties (replace_all bean_name "client" "server") "bind-address" in
    if not (is_empty given)
    then some given
    else if is_empty bind_addr
    then none
    else some (localize bind_addr)

-- The error that neither property is found.
abbrev pub address_not_found : String → String
address_not_found bean_name = String.◌++◌ "neither property '" (
    String.◌++◌ bean_name (
      String.◌++◌ ".connect-address' nor '" (
        String.◌++◌ (replace_all bean_name "client" "server")
          ".bind-address' is found in context")))

unfoldable pub transport_creds : GrpcClientFactory → TransportCredentials
transport_creds t = if t.tls_config then over_tls else insecure

-- dial: the options of the connection.
unfoldable pub dial_options : GrpcClientFactory → List DialOption
unfolding transport_creds
dial_options t =
    let n = t.properties.get_int (String.◌++◌ t.bean_name ".max-recv-msg-size") (pos 0) in
    let token = property_of t.properties t.bean_name "auth-token" in
    with_transport_credentials (transport_creds t)
    ∷ ((if exceeds n 0 then with_max_call_recv_msg_size n ∷ [] else [])
        ++ (if is_empty token
            then []
            else with_per_rpc_credentials (record { token = token; secure = t.tls_config }) ∷ []))

-- Object
unfoldable pub object :
    {Conn : Type 0} → (String → List DialOption → String ⊎ Conn) → GrpcClientFactory → String ⊎ Conn
unfolding connect_addr localize_addr dial_options
object dial t = elim (connect_addr localize_addr t.properties t.bean_name) [
  | none ↦ inl (address_not_found t.bean_name)
  | some addr ↦ dial addr (dial_options t)
]
