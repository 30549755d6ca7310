-- ===== src/Runner/Examples.antt =====
-- The theorems of the runner at concrete inputs.
use servion.Base.{
  ℕ, suc, ◌-◌, true, false, List, [], ◌∷◌, Option, none, some, ◌⊎◌, inl, inr, ◌≡◌, ◌≢◌, refl, subst,
  ap,
}
use servion.Runner.{
  Error, none_bound, Server, Container, Core, Command, Outcome, returned, panicked, warning,
  degraded, bind_servers, addr_in_use_hint, do_with_servers, run,
}
use servion.Runner.Bound.{binds, none_left, successes, bind_servers_reports}
use servion.Runner.Closing.{Tame, do_with_servers-opened}
use servion.Runner.Exit.{DeadCore, run_unbound}

-- The state counts the containers that are open.
abbrev in_use : Error
in_use = record { message = "address already in use"; addr_in_use = true }

abbrev busy : Server ℕ
busy = record { bind = λ s. (s, some in_use) }

abbrev free : Server ℕ
free = record { bind = λ s. (s, none) }

abbrev outcomes : List (Server ℕ × Option Error)
outcomes = (busy, some in_use) ∷ (free, none) ∷ []

bind_servers_reports_example :
    (successes outcomes ≡ []
      → bind_servers (busy ∷ free ∷ []) 0 ≡ (
        0,
        warning in_use ∷ [],
        inl (none_bound 2 2 (addr_in_use_hint (in_use ∷ [])) (in_use ∷ [])),
      ))
    × (successes outcomes ≢ []
        → bind_servers (busy ∷ free ∷ []) 0
          ≡ (0, warning in_use ∷ degraded 1 2 ∷ [], inr (free ∷ [])))
bind_servers_reports_example = bind_servers_reports (busy ∷ free ∷ []) 0 0 outcomes (
    binds busy (free ∷ []) 0 0 0 (some in_use) ((free, none) ∷ []) refl
      (binds free [] 0 0 0 none [] refl (none_left 0)))

abbrev child : Container ℕ
child = record { servers = inr busy ∷ []; http_servers = []; close = λ s. (s - 1, none) }

abbrev two_children : Core ℕ
two_children = record {
  self = child;
  children = (λ s. (suc s, inr child)) ∷ (λ s. (s, inl in_use)) ∷ [];
}

child-Tame : Tame (λ s. s) child
child-Tame = record { closes = λ s. refl; injects = tt }

do_with_servers-opened_example :
    (do_with_servers two_children (λ servers s. (s, panicked in_use)) 3).0 ≡ 3
do_with_servers-opened_example =
    do_with_servers-opened (λ s. s) two_children (λ servers s. (s, panicked in_use)) 3
      (λ servers s. refl) child-Tame ((λ s. (refl, child-Tame)), ((λ s. refl), tt))

abbrev command : Command ℕ
command = record {
  new_logger = λ s. (s, none);
  extend = λ s. (s, inr (record two_children { children = [] }));
  restarting = λ s. false;
}

abbrev serve_nothing : List (Server ℕ) → ℕ → ℕ × Outcome
serve_nothing servers s = (s, returned none)

core_of : Error ⊎ Core ℕ → Core ℕ
core_of (inl e) = two_children
core_of (inr core) = core

command-DeadCore : (s : ℕ) (core : Core ℕ) → (command.extend s).1 ≡ inr core → DeadCore core
unfolding core_of
command-DeadCore s core e = subst DeadCore (ap core_of e) (record {
  self_dead = record { own = ((λ s. (in_use, refl)), tt); http = tt };
  children_dead = tt;
})

run_unbound_example : (run command serve_nothing 0).1 ≢ none
run_unbound_example = run_unbound command serve_nothing 0 command-DeadCore
