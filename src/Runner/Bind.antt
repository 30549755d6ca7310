-- ===== src/Runner/Bind.antt =====
-- utils.go, bindServers and addrInUseHint.
use Prim.Native.String.{[], ◌∷◌}
use servion.Base.{
  ltb, String, List, [], ◌∷◌, ◌++◌, any, length, none, some, ◌⊎◌, inl, inr, if◌then◌else◌, ◌==◌,
}
use servion.Runner.Types.{Error, RunError, none_bound, Server, Line, warning, degraded, Binding}

-- addrInUseHint
unfoldable pub addr_in_use_hint : List Error → String
addr_in_use_hint errs =
    if any (λ e. e.addr_in_use) errs then " — is another instance already running?" else ""

module _ {S : Type 0} where
  abbrev pub bind_failure : Error → Binding S → Binding S
  bind_failure e b = record {
    bound = b.bound;
    bind_errs = e ∷ b.bind_errs;
    stderr = warning e ∷ b.stderr;
  }

  -- The loop of bindServers.
  unfoldable pub bind_each : List (Server S) → S → S × Binding S
  bind_each [] s = (s, record { bound = []; bind_errs = []; stderr = [] })
  bind_each (server ∷ servers) s =
      let (s₁, result) = server.bind s in
      let (s₂, rest) = bind_each servers s₁ in
      (
        s₂,
        elim result [
          | none ↦ record rest { bound = server ∷ rest.bound }
          | some e ↦ bind_failure e rest
        ],
      )

  -- bindServers: the lines on stderr, and the error or the servers to run.
  unfoldable pub bind_servers : List (Server S) → S → S × List Line × (RunError ⊎ List (Server S))
  unfolding bind_each addr_in_use_hint
  bind_servers servers s =
      let (s', b) = bind_each servers s in
      let failed = length b.bind_errs in
      if length b.bound == 0
      then (
        s',
        b.stderr,
        inl (none_bound failed (length servers) (addr_in_use_hint b.bind_errs) b.bind_errs),
      )
      else if ltb 0 failed
      then (s', b.stderr ++ degraded failed (length servers) ∷ [], inr b.bound)
      else (s', b.stderr, inr b.bound)
