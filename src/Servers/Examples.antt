-- ===== src/Servers/Examples.antt =====
-- The contract of the servers at the life of a value-rpc server, and tests.
use servion.Base.{
  length, ◌≤◌, All, inl, some, ℕ, suc, String, true, false, [], ◌∷◌, none, ◌≡◌, inr, refl,
  if◌then◌else◌, str_eq,
}
use servion.Factory.{Properties}
use servion.HttpServer.{socket, returned, panicked}
use servion.Vrpc.{
  ValueService, bind as bind_vrpc, begin_serve as begin_vrpc, end_serve as end_vrpc,
  shutdown as shutdown_vrpc,
}
use servion.Servers.{
  AnyServer, vrpc, World, empty_addr, addr_of_server, is_empty_addr, value_server, alive,
  listen_address, begin_serve, end_serve, bind, shutdown, destroy,
}
use servion.Runner.{Error, bind_each}
use servion.Runtime.{start, started}
use servion.Serving.{Group, slot, running, ended, not_asked, asked, closed, begin}
use servion.Servers.Together.{
  Member, Ready, Joint, begun, serving as serve_begins, served as serve_ended, woke, spawned,
  shut as shut_by_group, waited, this, begins, ends, closes_it, ask_this,
}
use servion.Servers.Bound.{left, errors, members, bind_all, servers_from, bind_each-Ready}
use servion.Servers.Ended.{destroy_all, servers_end}
use servion.Servers.Contract.{
  closes, Reached, new_vrpc, bound, serving, served, shut, server_refines,
}

-- The state counts the sockets; a value-rpc server is the number of its socket.
abbrev world : World ℕ ℕ ℕ ℕ ℕ String
world = record {
  http_network = record {
    listen = λ addr s. (suc s, inr (socket s));
    provider = none;
    close_server = λ s. (s, none);
    close_listener = λ ln s. s;
  };
  grpc_network = record {
    listen = λ addr s. (suc s, inr (socket s));
    close_listener = λ ln s. s;
    graceful_stop = λ s. (s, true);
    stop = λ s. (s, true);
  };
  library = record {
    parse_address = λ address. ("tcp", address);
    net_listen = λ network addr s. (suc s, inr s);
    shape = λ base policy. base;
    accept_from = λ base s. (suc s, inr s);
    addr_of = λ base. ":7000";
    close_base = λ base s. (s, none);
    accept_listener = λ accept addr close timeout. 0;
    new_listener = λ addr keep_alive timeout s. (suc s, inr s);
    close_listener = λ lis s. s;
    new_server = λ lis s. (s, inr lis);
    set_connect_authorizer = λ srv s. s;
    set_authenticator = λ srv s. s;
    close = λ srv s. (s, none);
    keep_alive_period = 15;
    default_timeout = 10;
  };
}

abbrev by_name : String → String → String
by_name key default = if str_eq key "value-server.bind-address" then ":7000" else default

abbrev properties : Properties
properties = record {
  get_string = by_name;
  get_int = λ key default. default;
  get_duration = λ key default. default;
}

abbrev greeter : ValueService ℕ ℕ
greeter = record { type_name = "*greeter"; register_functions = λ srv s. (s, none) }

abbrev new : AnyServer ℕ ℕ ℕ ℕ ℕ String
new = vrpc (value_server "value-server" properties (greeter ∷ []) (true, false) none none)

abbrev bind_new : ℕ × AnyServer ℕ ℕ ℕ ℕ ℕ String
bind_new = let (s, t, _) = bind world new 3 in (s, t)

bind_test : (listen_address new ≡ empty_addr) × (listen_address bind_new.1 ≡ addr_of_server 3)
unfolding listen_address bind bind_vrpc
bind_test = (refl, refl)

new_server :
    Reached world (record { bound = false; serving = false; crashed = false; closed = false }) new 3
new_server = new_vrpc "value-server" properties (greeter ∷ []) (true, false) none none 3

-- Bound, in Serve, shut down, and out of Serve.
life :
    Reached world
      (record { bound = true; serving = false; crashed = false; closed = true })
      (end_serve (returned none) (shutdown world (begin_serve bind_new.1).0 bind_new.0).1).0
      (shutdown world (begin_serve bind_new.1).0 bind_new.0).0
unfolding bind bind_vrpc
life = served (returned none) (shut (serving (bound new_server) refl refl)) refl

server_refines_example :
    let s = (shutdown world (begin_serve bind_new.1).0 bind_new.0).0 in
    let t =
      (end_serve (returned none) (shutdown world (begin_serve bind_new.1).0 bind_new.0).1).0 in
    let (s', t', _) = shutdown world t s in
    (alive t ≡ false)
    × (closes t ≡ 1)
    × (is_empty_addr (listen_address t) ≡ false)
    × ((end_serve (returned none) t).1 ≡ none)
    × ((e : Error) → end_serve (panicked e) t ≡ (t, some e))
    × (destroy world t' s' ≡ (s', t', none))
server_refines_example = server_refines world life

abbrev refused : Error
refused = record { message = "accept: too many open files"; addr_in_use = false }

-- The server in the group: bound, in Serve, behind a Serve that panics, handed to the group, shut
-- down.
abbrev ready : Member ℕ ℕ ℕ ℕ ℕ String
ready = record {
  place = slot running not_asked;
  view = record { bound = true; serving = false; crashed = false; closed = false };
  server = bind_new.1;
}

abbrev in_serve : Member ℕ ℕ ℕ ℕ ℕ String
in_serve = record ready {
  view = record { bound = true; serving = true; crashed = false; closed = false };
  server = (begin_serve bind_new.1).0;
}

abbrev broken : Member ℕ ℕ ℕ ℕ ℕ String
broken = record ready {
  place = slot (ended (some refused)) not_asked;
  view = record { bound = true; serving = false; crashed = true; closed = false };
  server = (end_serve (panicked refused) in_serve.server).0;
}

abbrev handed : Member ℕ ℕ ℕ ℕ ℕ String
handed = record broken { place = slot (ended (some refused)) asked }

abbrev down : Member ℕ ℕ ℕ ℕ ℕ String
down = record {
  place = slot (ended (some refused)) closed;
  view = record { bound = true; serving = false; crashed = true; closed = true };
  server = (shutdown world handed.server 4).1;
}

abbrev ended_group : Group
ended_group = record (begin 1 start) {
  slots = slot (ended (some refused)) closed ∷ [];
  err = some refused;
  watcher = true;
  result = some (some refused);
}

joint : Joint world ended_group (down ∷ []) 4
unfolding bind bind_vrpc begin_serve end_serve shutdown begin_vrpc end_vrpc shutdown_vrpc
joint =
    let start_of_life =
      begun start started (ready ∷ []) 4 ((refl, refl, (4, bound new_server)), tt) in
    let failing =
      serve_ended (panicked refused) (some refused)
        (serve_begins start_of_life (this [] (begins refl))) (this [] (ends refl refl refl)) in
    let asking = spawned (woke failing (inr (inl (λ n. cc))) refl) refl (ask_this broken [] refl) in
    waited (shut_by_group none asking (this [] (closes_it refl refl))) refl refl

servers_end_example :
    All (λ m. (alive m.server ≡ m.view.crashed) × (closes m.server ≤ 1)) (down ∷ [])
    × All
        (λ m. (alive m.server ≡ m.view.crashed) × (closes m.server ≡ 1))
        (destroy_all world (down ∷ []) 9).1
servers_end_example = servers_end world joint (λ n. cc) 9

-- The server is alive behind g.Wait, as its Serve panicked.
servers_end_test : alive down.server ≡ true
unfolding alive bind bind_vrpc begin_serve end_serve shutdown begin_vrpc end_vrpc shutdown_vrpc
servers_end_test = refl

bind_each-Ready_example :
    let ts = new ∷ new ∷ [] in
    let b = bind_each (servers_from world 0 2) (3, ts) in
    let o = bind_all world ts 3 in
    (b.0 ≡ (o.0, left o.1))
    × (b.1.bind_errs ≡ errors o.1)
    × (length b.1.bound ≡ length (members o.1))
    × All (Ready world) (members o.1)
bind_each-Ready_example =
    bind_each-Ready world (new ∷ new ∷ []) 3 ((3, new_server), ((3, new_server), tt))
