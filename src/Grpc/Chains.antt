-- ===== src/Grpc/Chains.antt =====
-- What the factory of the gRPC server makes of its beans.
use mathlib.Core.List.{append-nil, append_assoc}
use servion.Base.{
  String, Bool, false, inl, inr, List, [], ◌∷◌, ◌++◌, none, some, ◌≡◌, refl, ap, sym, ◌∙◌,
  if◌then◌else◌, Bool-cases,
}
use servion.Base.Int.{ℤ, pos, exceeds}
use servion.Options.{parse_options, enabled}
use servion.Grpc.ServerFactory.{
  Interceptor, ServerOption, max_recv_msg_size, max_send_msg_size, chain_unary_interceptor,
  chain_stream_interceptor, GrpcServer, GrpcServerFactory, sort_stable, functions, interceptors,
  register_grpc, register_all, register_health, size_option, unary_option, stream_option,
  server_options, object, property_name,
}
use servion.Grpc.Ordering.{SortedFrom, sort_stable-SortedFrom}

-- All names that the services register.
abbrev pub names_of : List (List String) → List String
names_of [] = []
names_of (svc ∷ svcs) = svc ++ names_of svcs

module _ {U V : Type 0} where
  -- The interceptors that the options chain.
  abbrev pub chained_unary : List (ServerOption U V) → List U
  chained_unary [] = []
  chained_unary (max_recv_msg_size n ∷ os) = chained_unary os
  chained_unary (max_send_msg_size n ∷ os) = chained_unary os
  chained_unary (chain_unary_interceptor fs ∷ os) = fs ++ chained_unary os
  chained_unary (chain_stream_interceptor fs ∷ os) = chained_unary os

  abbrev pub chained_stream : List (ServerOption U V) → List V
  chained_stream [] = []
  chained_stream (max_recv_msg_size n ∷ os) = chained_stream os
  chained_stream (max_send_msg_size n ∷ os) = chained_stream os
  chained_stream (chain_unary_interceptor fs ∷ os) = chained_stream os
  chained_stream (chain_stream_interceptor fs ∷ os) = fs ++ chained_stream os

  lists_chain :
      (us : List U) (vs : List V)
      → let os : List (ServerOption U V) = unary_option us ++ stream_option vs in
        (chained_unary os ≡ us) × (chained_stream os ≡ vs)
  unfolding unary_option stream_option
  lists_chain [] [] = (refl, refl)
  lists_chain [] (v ∷ vs) = (refl, append-nil (v ∷ vs))
  lists_chain (u ∷ us) [] = (append-nil (u ∷ us), refl)
  lists_chain (u ∷ us) (v ∷ vs) = (append-nil (u ∷ us), append-nil (v ∷ vs))

  options_chain :
      (a b : ℤ) (us : List U) (vs : List V)
      → let os : List (ServerOption U V) =
          size_option max_recv_msg_size a
          ++ size_option max_send_msg_size b
          ++ unary_option us
          ++ stream_option vs in
        (chained_unary os ≡ us) × (chained_stream os ≡ vs)
  unfolding size_option
  options_chain a b us vs = elim (Bool-cases (exceeds a 0)) [
    | inl x ↦ elim (Bool-cases (exceeds b 0)) [
      | inl y ↦ rw (x, y) (lists_chain us vs)
      | inr y ↦ rw (x, y) (lists_chain us vs)
    ]
    | inr x ↦ elim (Bool-cases (exceeds b 0)) [
      | inl y ↦ rw (x, y) (lists_chain us vs)
      | inr y ↦ rw (x, y) (lists_chain us vs)
    ]
  ]

  register_all-services :
      (svcs : List (List String)) (srv : GrpcServer U V)
      → register_all svcs srv ≡ record srv { services = srv.services ++ names_of svcs }
  unfolding register_all
  register_all-services [] srv =
      ap (λ l. record srv { services = l }) (sym (append-nil srv.services))
  register_all-services (svc ∷ svcs) srv =
      register_all-services svcs (register_grpc svc srv)
      ∙ ap (λ l. record srv { services = l }) (append_assoc srv.services svc (names_of svcs))

  abbrev pub options_of : GrpcServerFactory U V → List (String × Bool)
  options_of t = parse_options (t.properties.get_string (property_name t "options") "")

  abbrev new_server : GrpcServerFactory U V → GrpcServer U V
  new_server t = record {
    options = server_options t;
    services = [];
    serving = none;
    reflection = false;
  }

  object_fields :
      (t : GrpcServerFactory U V)
      → ((object t).options ≡ server_options t)
        × ((object t).serving
            ≡ (if enabled (options_of t) "health" then some ("" ∷ names_of t.services) else none))
  unfolding object register_health
  object_fields t =
      let e = register_all-services t.services (new_server t) in
      elim (Bool-cases (enabled (options_of t) "reflection")) [
        | inl r ↦ elim (Bool-cases (enabled (options_of t) "health")) [
          | inl h ↦ rw (r, h) (rw e (refl, refl))
          | inr h ↦ rw (r, h) (rw e (refl, refl))
        ]
        | inr r ↦ elim (Bool-cases (enabled (options_of t) "health")) [
          | inl h ↦ rw (r, h) (rw e (refl, refl))
          | inr h ↦ rw (r, h) (rw e (refl, refl))
        ]
      ]

  -- The unary and the stream interceptors that the server chains, the first outermost, are the
  -- functions of the beans in ascending order, where beans of one order keep their places and those
  -- without a function are left out; and with the option "health" the server as a whole and every
  -- service of the beans are reported as serving, without it there is no health service.
  pub object_assembles :
      (t : GrpcServerFactory U V)
      → let srv = object t in
        let health = enabled (options_of t) "health" in
        ((sorted : List (Interceptor U)) × SortedFrom t.unary sorted
          × (chained_unary srv.options ≡ functions sorted))
        × ((sorted : List (Interceptor V)) × SortedFrom t.stream sorted
            × (chained_stream srv.options ≡ functions sorted))
        × (srv.serving ≡ (if health then some ("" ∷ names_of t.services) else none))
  unfolding server_options interceptors
  object_assembles t =
      let (options, serving) = object_fields t in
      let (us, vs) =
        options_chain (t.properties.get_int (property_name t "max-recv-msg-size") (pos 0))
          (t.properties.get_int (property_name t "max-send-msg-size") (pos 0))
          (interceptors t.unary) (interceptors t.stream) in
      (
        (sort_stable t.unary, sort_stable-SortedFrom t.unary, ap chained_unary options ∙ us),
        (sort_stable t.stream, sort_stable-SortedFrom t.stream, ap chained_stream options ∙ vs),
        serving,
      )
