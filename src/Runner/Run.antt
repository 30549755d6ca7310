-- ===== src/Runner/Run.antt =====
-- utils.go, runServers; run_command.go, Run. The goroutines of runServers, behind the binding of
-- the servers, are the argument `serve_all`.
use Prim.Native.String.{[], ◌∷◌}
use servion.Base.{List, [], ◌∷◌, Option, none, some, inl, inr, if◌then◌else◌}
use servion.Runner.Types.{
  panic_failed, panicked, RunError, init_failed, no_servers, repeat_run, Server, Core, Outcome,
  returned, Body, Command,
}
use servion.Runner.Bind.{bind_servers}
use servion.Runner.Containers.{do_with_servers}

-- PanicToError
unfoldable pub panic_to_error : Outcome → Outcome
panic_to_error (returned result) = returned result
panic_to_error (panicked e) = returned (some (panic_failed e))

module _ {S : Type 0} where
  -- The callback of runServers; serve_all is its part behind bindServers.
  unfoldable pub run_bound : (List (Server S) → S → S × Outcome) → Body S
  unfolding bind_servers panic_to_error
  run_bound serve_all [] s = (s, returned (some no_servers))
  run_bound serve_all (server ∷ servers) s =
      let (s', lines, bound) = bind_servers (server ∷ servers) s in
      elim bound [
        | inl e ↦ (s', returned (some e))
        | inr list ↦ let (s'', out) = serve_all list s' in (s'', panic_to_error out)
      ]

  -- runServers
  unfoldable pub run_servers :
      Core S → (List (Server S) → S → S × Outcome) → S → S × Option RunError
  unfolding do_with_servers run_bound
  run_servers core serve_all s = do_with_servers core (run_bound serve_all) s

  -- Run
  unfoldable pub run : Command S → (List (Server S) → S → S × Outcome) → S → S × Option RunError
  unfolding run_servers
  run cmd serve_all s =
      let (s₁, logger) = cmd.new_logger s in
      let (s₂, child) = cmd.extend s₁ in
      elim logger [
        | some e ↦ (s₁, some (init_failed e))
        | none ↦ elim child [
          | inl e ↦ (s₂, some (init_failed e))
          | inr core ↦
              let (s₃, err) = run_servers core serve_all s₂ in
              let s₄ = (core.self.close s₃).0 in
              (s₄, if cmd.restarting s₄ then some repeat_run else err)
        ]
      ]
