-- ===== src/Protocol/Lifecycle.antt =====
-- protocol/lifecycle.go: the state machine of a sidecar process. The mutex is left out: each method
-- runs as a whole under it. `time.Now()` is an argument, and what the listener is called with is
-- kept in the instance, newest call first.
pub mod Ranks
pub mod Trace
mod Tests
use brain.Prelude.{
  ℕ, String, Bool, true, false, ◌||◌, not, Option, none, some, List, [], ◌∷◌, nat_eqb,
  if◌then◌else◌,
}
use brain.Errors.Codes

-- `type SidecarState int`: the six constants, and any other value.
pub data SidecarState : Type 0 where
  starting running draining closed waited reaped : SidecarState
  unknown_state : ℕ → SidecarState

-- `==` on states
abbrev pub state_eqb : SidecarState → SidecarState → Bool
state_eqb starting starting = true
state_eqb running running = true
state_eqb draining draining = true
state_eqb closed closed = true
state_eqb waited waited = true
state_eqb reaped reaped = true
state_eqb (unknown_state n) (unknown_state m) = nat_eqb n m
state_eqb _ _ = false

-- The keys that `validTransitions[from]` maps to true, if `from` has an entry.
abbrev pub valid_transitions : SidecarState → Option (List SidecarState)
valid_transitions starting = some (running ∷ draining ∷ waited ∷ [])
valid_transitions running = some (draining ∷ waited ∷ [])
valid_transitions draining = some (closed ∷ waited ∷ [])
valid_transitions closed = some (waited ∷ [])
valid_transitions waited = some (reaped ∷ [])
valid_transitions reaped = some []
valid_transitions (unknown_state n) = none

abbrev has_state : SidecarState → List SidecarState → Bool
has_state s [] = false
has_state s (t ∷ ts) = state_eqb t s || has_state s ts

abbrev nexts_has : SidecarState → Option (List SidecarState) → Bool
nexts_has s none = false
nexts_has s (some ts) = has_state s ts

-- `IsValidTransition`
unfoldable pub is_valid_transition : SidecarState → SidecarState → Bool
is_valid_transition from to = nexts_has to (valid_transitions from)

-- One call of the listener.
pub record Call : Type 0 where
  pub from : SidecarState
  pub to : SidecarState
  pub at : ℕ

pub record SidecarInstance : Type 0 where
  pub state : SidecarState
  pub state_changed_at : ℕ
  pub has_listener : Bool
  pub calls : List Call

unfoldable pub new_sidecar_instance : Bool → ℕ → SidecarInstance
new_sidecar_instance has_listener now = record {
  state = starting;
  state_changed_at = now;
  has_listener = has_listener;
  calls = [];
}

-- The assignments that `TransitionTo` and `ForceTransitionTo` share.
abbrev move_to : SidecarInstance → SidecarState → ℕ → SidecarInstance
move_to s to now = record {
  state = to;
  state_changed_at = now;
  has_listener = s.has_listener;
  calls =
      if s.has_listener then record { from = s.state; to = to; at = now } ∷ s.calls else s.calls;
}

-- `TransitionTo`; the error is the code of the one that is returned.
unfoldable pub transition_to : SidecarInstance → SidecarState → ℕ → SidecarInstance × Option String
unfolding is_valid_transition
transition_to s to now =
    if not (is_valid_transition s.state to)
    then (s, some Codes.invariant_violated)
    else (move_to s to now, none)

-- `ForceTransitionTo`; its reason is used by nothing.
unfoldable pub force_transition_to : SidecarInstance → SidecarState → ℕ → SidecarInstance
force_transition_to s to now = move_to s to now
