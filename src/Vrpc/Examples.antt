-- ===== src/Vrpc/Examples.antt =====
-- Tests of the value-rpc module, and its theorem at a concrete input.

use servion.Base.{
  ℕ, suc, String, true, false, List, [], ◌∷◌, Option, none, some, ◌≡◌, ◌⊎◌, inl, inr, refl,
  if◌then◌else◌, str_eq,
}
use servion.Base.Int.{ℤ, pos, exceeds}
use servion.Text.{contains, has_prefix, drop_prefix, replace_all}
use servion.Factory.{Properties}
use servion.Runner.{Error}
use servion.Grpc.Client.{connect_addr, localize_addr as localize_grpc}
use servion.Vrpc.Addresses.{client_finds_server}
use servion.Vrpc.{Library, ValueServer, ValueService, bind}
use servion.Vrpc.Client.{ClientLibrary, wrapped_conn, ValueClientFactory, client_of, localize_addr}
use servion.Vrpc.Layers.{Inward, has_layer, interceptors_layered}
use servion.Vrpc.Resilience.{
  ResiliencePolicyFactory, get_int, rate_limit, retry, timeout, interceptors,
}
use servion.Vrpc.Shaped.{ShapedListener, ShapedClient, obfuscation_enforced}

-- A connection is its number and the policies that wrap it, a net.Listener the policies of its
-- connections; a listener accepts its first connection at once, and a server is its listener.
abbrev Conn : Type 0
Conn = ℕ × List String

abbrev Sockets : Type 0
Sockets = ℕ × List String

abbrev first_conn : Error ⊎ (ℕ × List String) → Option (ℕ × List String)
first_conn (inl e) = none
first_conn (inr conn) = some conn

abbrev library : Library ℕ Sockets Conn (Option Conn) (Option Conn) String
library = record {
  parse_address = λ address. ("tcp", address);
  net_listen = λ network addr s. (suc s, inr (s, []));
  shape = λ base policy. (base.0, policy ∷ base.1);
  accept_from = λ base s. (suc s, inr (s, base.1));
  addr_of = λ base. ":7000";
  close_base = λ base s. (s, none);
  accept_listener = λ accept addr close timeout. first_conn (accept 0).1;
  new_listener = λ addr keep_alive timeout s. (suc s, inr none);
  close_listener = λ lis s. s;
  new_server = λ lis s. (s, inr lis);
  set_connect_authorizer = λ srv s. s;
  set_authenticator = λ srv s. s;
  close = λ srv s. (s, none);
  keep_alive_period = 15;
  default_timeout = 10;
}

abbrev client_library : ClientLibrary ℕ Conn (Option Conn) String ℕ (Option Conn)
client_library = record {
  parse_address = λ address. ("tcp", address);
  dial = λ network addr s. (suc s, inr (s, []));
  wrap = λ conn policy. (conn.0, policy ∷ conn.1);
  func_dialer = λ dial timeout. first_conn (dial 0).1;
  new_client_with_dialer = λ dialer opts. dialer;
  new_client = λ addr socks5 opts. none;
  set_timeout = λ n cli. cli;
  default_timeout = 10;
}

abbrev by_name : String → String → String
by_name key default = if str_eq key "value-server.bind-address" then ":7000" else default

abbrev limits : String → ℤ → ℤ
limits key default =
    if str_eq key "value-client.resilience.rate-limit.per-second"
    then pos 100
    else if str_eq key "value-client.resilience.retry.max-attempts"
    then pos 3
    else if str_eq key "value-client.resilience.timeout-ms"
    then pos 2000
    else default

abbrev properties : Properties
properties = record {
  get_string = by_name;
  get_int = limits;
  get_duration = λ key default. default;
}

abbrev greeter : ValueService ℕ (Option Conn)
greeter = record { type_name = "*greeter"; register_functions = λ srv s. (s, none) }

abbrev server : ValueServer ℕ (Option Conn) (Option Conn) (Option Conn) String
server = record {
  bean_name = "value-server";
  properties = properties;
  services = greeter ∷ [];
  authorizer = true;
  authenticator = false;
  obfs = some "cells of 512";
  transport = none;
  srv = none;
  alive = false;
  shut_down = false;
  closes = 0;
}

abbrev client : ValueClientFactory ℕ (Option Conn) (Option Conn) String ℕ
client = record {
  bean_name = "value-client";
  properties = properties;
  obfs = some "cells of 512";
  transport = none;
  resilience = none;
}

abbrev policy : ResiliencePolicyFactory
policy = record { bean_name = "value-client"; properties = properties }

interceptors_test :
    interceptors policy
    ≡ rate_limit (pos 100) (pos 1) ∷ retry (pos 3) (pos 50) (pos 1000) ∷ timeout (pos 2000) ∷ []
unfolding interceptors
interceptors_test = refl

connect_addr_test : connect_addr localize_addr properties "value-client" ≡ some "127.0.0.1:7000"
unfolding connect_addr localize_addr contains has_prefix replace_all drop_prefix
connect_addr_test = refl

localize_addr_test : localize_addr "unix:///0.0.0.0:1" ≡ "unix:///0.0.0.0:1"
unfolding localize_addr contains has_prefix
localize_addr_test = refl

obfuscation_enforced_example :
    ((srv : Option Conn)
      → (bind library server 0).1.srv ≡ some srv
      → (s1 : ℕ) × (s2 : ℕ) × (lis : Option Conn) × ShapedListener library client_library
          "cells of 512" ":7000" 0 s1 lis
        × (library.new_server lis s1 ≡ (s2, inr srv)))
    × ((target : String) (s' : ℕ) (cli : Option Conn)
        → client_of client_library client target 0 ≡ (s', inr cli)
        → ShapedClient library client_library "cells of 512" target cli)
unfolding wrapped_conn
obfuscation_enforced_example =
    obfuscation_enforced library client_library server client "cells of 512" 0 (refl, refl)
      (refl, refl) refl (λ base policy s. refl)

interceptors_layered_example :
    let ics = interceptors policy in
    Inward 0 ics
    × (has_layer 0 ics ≡ exceeds (get_int policy "rate-limit.per-second" 0) 0)
    × (has_layer 1 ics ≡ exceeds (get_int policy "bulkhead.max-concurrent" 0) 0)
    × (has_layer 2 ics ≡ exceeds (get_int policy "circuit-breaker.threshold" 0) 0)
    × (has_layer 3 ics ≡ exceeds (get_int policy "retry.max-attempts" 0) 1)
    × (has_layer 4 ics ≡ exceeds (get_int policy "timeout-ms" 0) 0)
interceptors_layered_example = interceptors_layered policy

no_client_before : contains "value-clien" "client" ≡ false
unfolding contains has_prefix
no_client_before = refl

no_scheme : contains ":7000" "://" ≡ false
unfolding contains has_prefix
no_scheme = refl

client_finds_server_example :
    (connect_addr localize_grpc properties "value-client" ≡ some "127.0.0.1:7000")
    × (connect_addr localize_addr properties "value-client" ≡ some "127.0.0.1:7000")
client_finds_server_example =
    client_finds_server properties "value-" "" "7000" (inl refl) no_client_before no_scheme refl
      refl
