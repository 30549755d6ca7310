-- ===== src/Grpc.antt =====
-- grpc/auth_interceptor.go and grpc/token_auth.go: the bearer gate in front of the methods of a
-- gRPC server, and the credentials of a client. A metadata key is in lower case, as
-- grpc/metadata keeps it; an error is its status.
mod Prefixes
pub mod Gate
pub mod SameGate
pub mod Tokens
pub mod ServerFactory
pub mod Ordering
pub mod Chains
pub mod Server
pub mod LifeCycle
pub mod Client
mod Examples
use Prim.Native.String
use servion.Base.{
  String, Bool, true, false, not, List, [], ◌∷◌, ◌++◌, map, Option, none, some, ◌⊎◌, inl, inr, any,
  select, if◌then◌else◌, find,
}
use servion.Text.{is_empty, has_prefix, split, trim_space}
use servion.Http.{AuthInfo}
use servion.Auth.{AuthResult, ok, err, ErrorKind, Authenticator, bearer_token}

-- google.golang.org/grpc/codes, those that the program uses.
pub data Code : Type 0 where
  unauthenticated : Code
  unavailable : Code
  internal : Code
  unimplemented : Code

-- status.Error
pub record Status : Type 0 where
  pub code : Code
  pub message : String

abbrev pub Metadata : Type 0
Metadata = List (String × List String)

-- The parts of a context.Context that the program reads.
pub record Context : Type 0 where
  -- metadata.FromIncomingContext
  pub incoming : Option Metadata
  -- AuthFromContext
  pub auth : Option AuthInfo

abbrev pub unauthenticated_error : String → Status
unauthenticated_error message = record { code = Code.unauthenticated; message = message }

-- The first of the values of the header.
first_token : List String → Status ⊎ String
first_token [] = inl (unauthenticated_error "missing authorization header")
first_token (h ∷ _) = elim (bearer_token h) [
  | none ↦ inl (unauthenticated_error "invalid authorization header")
  | some token ↦ inr token
]

-- md.Get
unfoldable pub values_of : String → Metadata → List String
values_of key md = elim (find key md) [ none ↦ [] | some values ↦ values ]

bearer_of : Option Metadata → Status ⊎ String
unfolding first_token values_of
bearer_of none = inl (unauthenticated_error "missing metadata")
bearer_of (some md) = first_token (values_of "authorization" md)

unfoldable pub bearer_from_context : Context → Status ⊎ String
unfolding bearer_of
bearer_from_context ctx = bearer_of ctx.incoming

abbrev pub default_auth_exempt : List String
default_auth_exempt = "/grpc.health.v1.Health/" ∷ "/grpc.reflection." ∷ []

-- PostConstruct, from the value of "grpc.auth.exempt".
unfoldable pub post_construct : String → List String
post_construct listed =
    default_auth_exempt ++ select (λ p. not (is_empty p)) (map trim_space (split listed b','))

unfoldable pub is_exempt : List String → String → Bool
is_exempt exempt full_method = any (λ p. has_prefix full_method p) exempt

-- ServerStream: its context, and the rest of it.
pub record ServerStream (M : Type 0) : Type 0 where
  pub context : Context
  pub inner : M

unfoldable pub refusal : ErrorKind → String → Status
refusal ErrorKind.unauthorized message = unauthenticated_error message
refusal ErrorKind.unavailable message = record { code = Code.unavailable; message = message }
refusal ErrorKind.other message = record { code = Code.internal; message = message }

unfoldable pub conclude : {S : Type 0} → Context → S × AuthResult → S × (Status ⊎ Context)
unfolding refusal
conclude ctx (s, ok info) = (s, inr (record ctx { auth = some info }))
conclude ctx (s, err kind message) = (s, inl (refusal kind message))

module _ {S : Type 0} (authenticate : Authenticator S) where
  -- The method authenticate of the interceptor.
  unfoldable pub authenticate_call : List String → Context → String → S → S × (Status ⊎ Context)
  unfolding is_exempt bearer_from_context conclude
  authenticate_call exempt ctx full_method s =
      if not (has_prefix full_method "/")
      then (s, inl (record { code = Code.unimplemented; message = "malformed method name" }))
      else if is_exempt exempt full_method
      then (s, inr ctx)
      else elim (bearer_from_context ctx) [
        | inl e ↦ (s, inl e)
        | inr token ↦ conclude ctx (authenticate token s)
      ]

  unfoldable pub unary_interceptor :
      {Req Resp : Type 0}
      → List String
      → Context
      → Req
      → String
      → (Context → Req → S → S × Option Resp × Option Status)
      → S
      → S × Option Resp × Option Status
  unfolding authenticate_call
  unary_interceptor exempt ctx req full_method handler s =
      let (s', out) = authenticate_call exempt ctx full_method s in
      elim out [ inl e ↦ (s', none, some e) | inr ctx' ↦ handler ctx' req s' ]

  unfoldable pub stream_interceptor :
      {Srv M : Type 0}
      → List String
      → Srv
      → ServerStream M
      → String
      → (Srv → ServerStream M → S → S × Option Status)
      → S
      → S × Option Status
  unfolding authenticate_call
  stream_interceptor exempt srv ss full_method handler s =
      let (s', out) = authenticate_call exempt ss.context full_method s in
      elim out [ inl e ↦ (s', some e) | inr ctx ↦ handler srv (record ss { context = ctx }) s' ]

-- tokenAuth
pub record TokenAuth : Type 0 where
  pub token : String
  pub secure : Bool

unfoldable pub get_request_metadata : TokenAuth → List (String × String)
get_request_metadata t = ("authorization", String.◌++◌ "Bearer " t.token) ∷ []

abbrev pub require_transport_security : TokenAuth → Bool
require_transport_security t = t.secure
