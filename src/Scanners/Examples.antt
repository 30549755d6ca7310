-- ===== src/Scanners/Examples.antt =====
-- The theorem of the scanners at a gRPC scanner, and tests.
use servion.Base.{ℕ, suc, String, false, [], ◌∷◌, Option, none, some, inl, inr, ◌≡◌, refl}
use servion.Base.Int.{pos}
use servion.Grpc.Server
use servion.Grpc.ServerFactory.{GrpcServerFactory, object}
use servion.Grpc.ServerFactory
use servion.Scanners.{Scanner, grpc_server_scanner, Zap, Glue, run}

abbrev make : String → GrpcServerFactory ℕ ℕ
make n = record {
  bean_name = n;
  properties = record {
    get_string = λ key default. default;
    get_int = λ key default. default;
    get_duration = λ key default. default;
  };
  services = ("app.Users" ∷ []) ∷ [];
  unary = record { bean_order = pos 1; function = some 7 } ∷ [];
  stream = [];
}

-- A bean of the application that is a server of its own, under the scanner's name.
abbrev of_extra : ℕ → Option (Server.Bean (ServerFactory.GrpcServer ℕ ℕ))
of_extra n = some (record { name = "grpc-server"; object = none })

abbrev scanner : Scanner ℕ
scanner = grpc_server_scanner "grpc-server" (4 ∷ 5 ∷ [])

-- The state counts what is open.
abbrev zap : Zap ℕ String
zap = record {
  new_development = λ s. (s, inr "development");
  new_production = λ s. (s, inr "production");
}

abbrev glue : Glue ℕ ℕ String String
glue = record { new_context = λ logger beans s. (suc s, (logger s).1); close = λ context s. 0 }

abbrev broken : Glue ℕ ℕ String String
broken = record glue {
  new_context = λ logger beans s. (s, inl (record { message = "no bean"; addr_in_use = false }));
}

run_test :
    (run zap glue scanner 0 ≡ (0, none)) × (run zap broken scanner 0 ≡ (0, some ("no bean", 1)))
unfolding run
run_test = (refl, refl)
