-- ===== src/Serving/Examples.antt =====
-- The theorems of the group for one server that fails.
use servion.Base.{
  ◌+◌, ◌*◌, ◌≤◌, true, false, [], ◌∷◌, none, some, ◌≡◌, ◌≢◌, ◌⊎◌, inl, inr, refl, any, All,
}
use servion.Runner.{Error}
use servion.Runtime.{start, started}
use servion.Serving.{
  slot, ended, not_asked, closed, is_running, Group, Inside, Cancelled, begin, here, first, served,
  woke, spawned, shut, waited, Reachable, begun, inside,
}
use servion.Serving.Outcome.{was_asked, EndedWell, group_outcome}
use servion.Serving.Progress.{Prompt, Run, stay, by_group, serving_ends}

abbrev refused : Error
refused = record { message = "accept: too many open files"; addr_in_use = false }

abbrev failed : Group
failed = record (begin 1 start) {
  slots = slot (ended (some refused)) not_asked ∷ [];
  err = some refused;
}

failed-Reachable : Reachable 1 failed
failed-Reachable = inside (begun start started) (served (some refused) (here _ [] refl))

abbrev stopped : Group
stopped = record failed {
  slots = slot (ended (some refused)) closed ∷ [];
  watcher = true;
  result = some (some refused);
}

failed-Cancelled : Cancelled failed
failed-Cancelled = inr (inl (λ x. cc))

failed-Run : Run failed 4 stopped
failed-Run =
    by_group
      (by_group
        (by_group (by_group stay (woke failed-Cancelled refl)) (spawned refl (first _ [] refl)))
        (shut none (here _ [] refl)))
      (waited refl refl)

stopped-Reachable : Reachable 1 stopped
stopped-Reachable =
    inside
      (inside
        (inside (inside failed-Reachable (woke failed-Cancelled refl))
          (spawned refl (first _ [] refl)))
        (shut none (here _ [] refl)))
      (waited refl refl)

group_outcome_example :
    (stopped.result ≢ none → any is_running stopped.slots ≡ false)
    × (stopped.result ≡ some none → All EndedWell stopped.slots)
    × (any was_asked stopped.slots ≡ true → Cancelled stopped)
group_outcome_example = group_outcome 1 stopped stopped-Reachable

serving_ends_example :
    (4 ≤ 3 * 1 + 2)
    × ((stopped.result ≢ none) ⊎ ((s : Group) × (st : Inside stopped s) × Prompt st))
serving_ends_example = serving_ends 1 failed failed-Reachable failed-Cancelled stopped failed-Run
