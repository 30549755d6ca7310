-- ===== src/Scanners/Resolved.antt =====
-- The container of a scanner's beans, and the *grpc.Server that each gRPC server in it serves.
use servion.Base.{String, List, [], ◌∷◌, map, Option, none, some, ◌≡◌}
use servion.Grpc.Server.{TlsConfig, GrpcServer, grpc_server as new_grpc_server, post_construct}
use servion.Grpc.Server
use servion.Grpc.ServerFactory.{GrpcServerFactory, object}
use servion.Grpc.ServerFactory
use servion.Scanners.{Bean, grpc_server_factory, grpc_server, extra}

unfoldable pub grpc_names : {E : Type 0} → List (Bean E) → List String
grpc_names [] = []
grpc_names (grpc_server n ∷ bs) = n ∷ grpc_names bs
grpc_names (_ ∷ bs) = grpc_names bs

module _ {E U V : Type 0} (make : String → GrpcServerFactory U V)
    (of_extra : E → Option (Server.Bean (ServerFactory.GrpcServer U V))) where
  -- The beans of the class *grpc.Server, in the order of their registration: the factories'
  -- objects, under the factories' names, and what the application's beans are.
  unfoldable pub grpc_beans : List (Bean E) → List (Server.Bean (ServerFactory.GrpcServer U V))
  grpc_beans [] = []
  grpc_beans (grpc_server_factory n ∷ bs) =
      record { name = n; object = some (object (make n)) } ∷ grpc_beans bs
  grpc_beans (extra e ∷ bs) =
      let rest = grpc_beans bs in elim (of_extra e) [ none ↦ rest | some b ↦ b ∷ rest ]
  grpc_beans (_ ∷ bs) = grpc_beans bs

  -- Container.Bean, of the container of a scanner's beans, gives them in that order.
  abbrev pub InOrder : (List (Bean E) → List (Server.Bean (ServerFactory.GrpcServer U V))) → Type 0
  InOrder container_bean = (beans : List (Bean E)) → container_bean beans ≡ grpc_beans beans

  module _ (container_bean : List (Bean E) → List (Server.Bean (ServerFactory.GrpcServer U V)))
      (addr : String) (tls : Option TlsConfig) where
    -- The *grpc.Server of each gRPC server of the container, behind its PostConstruct.
    abbrev pub resolved : List (Bean E) → List (Option (ServerFactory.GrpcServer U V))
    resolved beans =
        map (λ n. (post_construct (container_bean beans) (new_grpc_server n addr tls)).0.srv)
          (grpc_names beans)
