-- ===== src/Protocol/Lifecycle/Trace.antt =====
-- The calls of the listener tell the whole history of the state.
use brain.Prelude.{ℕ, ◌≡◌, refl, true, List, [], ◌∷◌, arith}
use brain.Protocol.Lifecycle.{
  SidecarState, starting, Call, SidecarInstance, new_sidecar_instance, transition_to,
  force_transition_to,
}

pub data Op : Type 0 where
  transition : SidecarState → ℕ → Op
  force : SidecarState → ℕ → Op

pub apply : SidecarInstance → Op → SidecarInstance
unfolding transition_to force_transition_to
apply s (transition to now) = (transition_to s to now).0
apply s (force to now) = force_transition_to s to now

pub run : SidecarInstance → List Op → SidecarInstance
unfolding apply
run s [] = s
run s (op ∷ ops) = run (apply s op) ops

-- The calls, newest first, lead from the initial state to `s`, each from where the last one ended.
abbrev pub LeadsTo : SidecarState → List Call → Type 0
LeadsTo s [] = s ≡ starting
LeadsTo s (c ∷ cs) = (c.to ≡ s) × LeadsTo c.from cs

pub record IsTraced (s : SidecarInstance) : Type 0 where
  pub leads : LeadsTo s.state s.calls
  pub listening : s.has_listener ≡ true

apply-IsTraced : (s : SidecarInstance) (op : Op) → IsTraced s → IsTraced (apply s op)
unfolding apply
apply-IsTraced s (transition to now) h = ground arith
apply-IsTraced s (force to now) h = ground arith

run-IsTraced : (s : SidecarInstance) (ops : List Op) → IsTraced s → IsTraced (run s ops)
unfolding run
run-IsTraced s [] h = h
run-IsTraced s (op ∷ ops) h = run-IsTraced (apply s op) ops (apply-IsTraced s op h)

-- After any transitions, forced or not, of a new instance with a listener, the calls that the
-- listener got lead without a gap from the initial state to the state that the instance is in.
pub calls_trace_state :
    (now : ℕ) (ops : List Op)
    → let s = run (new_sidecar_instance true now) ops in LeadsTo s.state s.calls
unfolding new_sidecar_instance
calls_trace_state now ops =
    (run-IsTraced (new_sidecar_instance true now) ops
      (record { leads = refl; listening = refl })).leads
