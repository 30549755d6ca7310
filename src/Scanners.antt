-- ===== src/Scanners.antt =====
-- scanner.go, grpc/scan.go, vrpc/scan.go, servion.go and zap_log_factory.go: the beans that a
-- scanner lists, and the program that builds a container of them and closes it.
pub mod Resolved
mod Examples
use servion.Base.{
  ℕ, String, Bool, true, false, List, [], ◌∷◌, ◌++◌, map, Option, none, some, ◌⊎◌, inl, inr,
  if◌then◌else◌,
}
use servion.Runner.{Error}

-- What a bean that only makes others visible asks for.
pub data Class : Type 0 where
  servers : Class
  http_servers : Class
  grpc_servers : Class
  grpc_clients : Class
  value_clients : Class

-- A field of such a bean, and whether its tag says "optional".
pub record Injection : Type 0 where
  pub class : Class
  pub optional : Bool

-- A bean of a scanner: the factories and servers with their names, and the application's own.
pub data Bean (E : Type 0) : Type 0 where
  http_server_factory : String → Bean E
  grpc_server_factory : String → Bean E
  grpc_server : String → Bean E
  value_server : String → Bean E
  grpc_client_factory : String → Bean E
  value_client_factory : String → Bean E
  visible : List Injection → Bean E
  extra : E → Bean E

pub data Scanner (E : Type 0) : Type 0 where
  http_server_scanner : String → List E → Scanner E
  grpc_server_scanner : String → List E → Scanner E
  value_server_scanner : String → List E → Scanner E
  grpc_client_scanner : String → List E → Scanner E
  value_client_scanner : String → List E → Scanner E

abbrev required : Class → Injection
required class = record { class = class; optional = false }

abbrev optionally : Class → Injection
optionally class = record { class = class; optional = true }

module _ {E : Type 0} where
  -- httpServerScanner.ScannerBeans
  unfoldable pub http_server_beans : String → List E → List (Bean E)
  http_server_beans bean_name scan =
      http_server_factory bean_name
      ∷ visible (optionally servers ∷ required http_servers ∷ [])
      ∷ map extra scan

  -- grpcServerScanner.ScannerBeans
  unfoldable pub grpc_server_beans : String → List E → List (Bean E)
  grpc_server_beans bean_name scan =
      grpc_server_factory bean_name
      ∷ grpc_server bean_name
      ∷ visible (optionally servers ∷ optionally grpc_servers ∷ [])
      ∷ map extra scan

  -- valueServerScanner.ScannerBeans
  unfoldable pub value_server_beans : String → List E → List (Bean E)
  value_server_beans bean_name scan =
      value_server bean_name ∷ visible (optionally servers ∷ []) ∷ map extra scan

  -- grpcClientScanner.ScannerBeans
  unfoldable pub grpc_client_beans : String → List E → List (Bean E)
  grpc_client_beans bean_name scan =
      grpc_client_factory bean_name ∷ visible (optionally grpc_clients ∷ []) ∷ map extra scan

  -- valueClientScanner.ScannerBeans
  unfoldable pub value_client_beans : String → List E → List (Bean E)
  value_client_beans bean_name scan =
      value_client_factory bean_name ∷ visible (optionally value_clients ∷ []) ∷ map extra scan

  -- ScannerBeans
  unfoldable pub scanner_beans : Scanner E → List (Bean E)
  unfolding http_server_beans grpc_server_beans value_server_beans grpc_client_beans
      value_client_beans
  scanner_beans (http_server_scanner bean_name scan) = http_server_beans bean_name scan
  scanner_beans (grpc_server_scanner bean_name scan) = grpc_server_beans bean_name scan
  scanner_beans (value_server_scanner bean_name scan) = value_server_beans bean_name scan
  scanner_beans (grpc_client_scanner bean_name scan) = grpc_client_beans bean_name scan
  scanner_beans (value_client_scanner bean_name scan) = value_client_beans bean_name scan

-- zap.NewDevelopment or zap.NewProduction.
pub record Zap (S Logger : Type 0) : Type 0 where
  pub new_development : S → S × (Error ⊎ Logger)
  pub new_production : S → S × (Error ⊎ Logger)

-- implZapLogFactory.Object
unfoldable pub object : {S Logger : Type 0} → Zap S Logger → Bool → S → S × (Error ⊎ Logger)
object zap development s = if development then zap.new_development s else zap.new_production s

-- glue.New, of the log factory and a scanner, and Close of the container.
pub record Glue (S E Logger Context : Type 0) : Type 0 where
  pub new_context : (S → S × (Error ⊎ Logger)) → List (Bean E) → S → S × (Error ⊎ Context)
  pub close : Context → S → S

module _ {S E Logger Context : Type 0} (zap : Zap S Logger) (glue : Glue S E Logger Context) where
  -- doRun
  unfoldable pub do_run : Scanner E → S → S × Option Error
  unfolding object scanner_beans
  do_run scanner s =
      let (s', made) = glue.new_context (object zap true) (scanner_beans scanner) s in
      elim made [ inl e ↦ (s', some e) | inr context ↦ (glue.close context s', none) ]

  -- Run: the line that it prints and the exit code, if it exits.
  unfoldable pub run : Scanner E → S → S × Option (String × ℕ)
  unfolding do_run
  run scanner s =
      let (s', failed) = do_run scanner s in
      elim failed [ none ↦ (s', none) | some e ↦ (s', some (e.message, 1)) ]
