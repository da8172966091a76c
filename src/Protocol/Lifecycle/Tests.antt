-- ===== src/Protocol/Lifecycle/Tests.antt =====
-- The life of one sidecar.
use brain.Prelude.{◌+◌, ℕ, ◌≤◌, true, List, [], ◌∷◌, arith}
use brain.Protocol.Lifecycle.{
  SidecarState, starting, running, closed, waited, reaped, SidecarInstance,
}
use brain.Protocol.Lifecycle.Ranks.{rank, attempts, attempts_bounded}
use brain.Protocol.Lifecycle.Trace.{Op, transition, force}

abbrev fresh : SidecarInstance
fresh = record { state = starting; state_changed_at = 1; has_listener = true; calls = [] }

abbrev some_attempts : List (SidecarState × ℕ)
some_attempts = (running, 2) ∷ (starting, 3) ∷ (waited, 4) ∷ (reaped, 5) ∷ []

attempts_bounded_example :
    rank fresh.state + (attempts fresh some_attempts).1
    ≤ (rank (attempts fresh some_attempts).0.state)
attempts_bounded_example = (attempts_bounded fresh some_attempts (omega arith)).0

abbrev some_ops : List Op
some_ops = transition running 2 ∷ transition starting 3 ∷ force closed 4 ∷ transition waited 5 ∷ []
