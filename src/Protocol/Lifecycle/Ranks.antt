-- ===== src/Protocol/Lifecycle/Ranks.antt =====
-- The transition table has no cycle, and every known state leads to the terminal one.
use brain.Prelude.{ℕ, ◌+◌, ◌≤◌, ◌<◌, ◌≡◌, true, none, List, [], ◌∷◌, arith, if◌then◌else◌, is_some}
use brain.Protocol.Lifecycle.{
  SidecarState, starting, running, draining, closed, waited, reaped, unknown_state,
  is_valid_transition, SidecarInstance, transition_to,
}

-- How far a known state lies along the life of a sidecar.
abbrev pub rank : SidecarState → ℕ
rank starting = 0
rank running = 1
rank draining = 2
rank closed = 3
rank waited = 4
rank reaped = 5
rank (unknown_state n) = 6

valid-rank :
    (from to : SidecarState)
    → is_valid_transition from to ≡ true
    → (rank from < rank to) × (rank to ≤ 5)
unfolding is_valid_transition
valid-rank from to h = ground arith

-- A list of attempts `(to, now)`, and how many of them were accepted.
pub attempts : SidecarInstance → List (SidecarState × ℕ) → SidecarInstance × ℕ
attempts s [] = (s, 0)
attempts s ((to, now) ∷ rest) =
    let (s', err) = transition_to s to now in
    let (s'', n) = attempts s' rest in (s'', if is_some err then n else n + 1)

step-rank :
    (s : SidecarInstance) (to : SidecarState) (now : ℕ)
    → ((transition_to s to now).1 ≡ none
        → (rank s.state < rank (transition_to s to now).0.state)
          × (rank (transition_to s to now).0.state ≤ 5))
      × (is_some (transition_to s to now).1 ≡ true → (transition_to s to now).0 ≡ s)
unfolding transition_to
step-rank s to now = ((λ h. ground (arith, valid-rank s.state to)), (λ h. ground arith))

-- Whatever transitions are attempted from a known state, each accepted one moves strictly forward
-- along the life of the sidecar, so that at most five are ever accepted, and the state stays known.
pub attempts_bounded :
    (s : SidecarInstance) (ops : List (SidecarState × ℕ))
    → rank s.state ≤ 5
    → (rank s.state + (attempts s ops).1 ≤ rank (attempts s ops).0.state)
      × (rank (attempts s ops).0.state ≤ 5)
unfolding attempts
attempts_bounded s [] h = omega arith
attempts_bounded s ((to, now) ∷ rest) h =
    ground (arith, step-rank s to now, attempts_bounded (transition_to s to now).0 rest)

reaped_after :
    (s : SidecarInstance) (t u : ℕ)
    → rank s.state ≤ 5
    → (attempts s ((waited, t) ∷ (reaped, u) ∷ [])).0.state ≡ reaped
unfolding attempts transition_to
reaped_after s t u h = ground arith

reaped_absorbs :
    (s : SidecarInstance) (to : SidecarState) (v : ℕ)
    → s.state ≡ reaped
    → ((transition_to s to v).0 ≡ s) × (is_some (transition_to s to v).1 ≡ true)
unfolding transition_to
reaped_absorbs s to v h = ground arith

-- From every known state the sidecar is in the terminal state after two attempts, by the safety
-- valve; from then on every attempt is refused and changes nothing.
pub reaped_reachable :
    (s : SidecarInstance) (to : SidecarState) (t u v : ℕ)
    → rank s.state ≤ 5
    → let s' = (attempts s ((waited, t) ∷ (reaped, u) ∷ [])).0 in
      (s'.state ≡ reaped)
      × ((transition_to s' to v).0 ≡ s')
      × (is_some (transition_to s' to v).1 ≡ true)
reaped_reachable s to t u v h =
    let at_end = reaped_after s t u h in
    (at_end, (reaped_absorbs _ to v at_end).0, (reaped_absorbs _ to v at_end).1)
