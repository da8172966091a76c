-- ===== src/Loop/Run/States.antt =====
-- The state machine of a run, over every sequence of calls.
use brain.Prelude.{
  ℕ, String, ◌≡◌, refl, sym, ap, ◌∙◌, ◌⊎◌, inl, inr, Bool, true, false, Option, none, some, List,
  [], ◌∷◌, arith, is_some,
}
use brain.Loop.Budget.{Floats, Budget}
use brain.Loop.Run.{
  State, pending, running, waiting_tool, paused, completed, failed, canceled, crashed, Run, new_run,
  start, complete, fail, pause, resume, cancel,
}
use brain.Errors.Codes

-- A call of one of the methods.
pub data Op : Type 0 where
  start_op complete_op fail_op cancel_op : ℕ → Op
  pause_op resume_op : Op

abbrev pub is_terminal : State → Bool
is_terminal completed = true
is_terminal failed = true
is_terminal canceled = true
is_terminal crashed = true
is_terminal _ = false

-- From which state a call leads to which.
pub data Edge : Op → State → State → Type 0 where
  begin : {now : ℕ} → Edge (start_op now) pending running
  finish : {now : ℕ} → Edge (complete_op now) running completed
  finish_waiting : {now : ℕ} → Edge (complete_op now) waiting_tool completed
  break : {now : ℕ} → Edge (fail_op now) running failed
  break_waiting : {now : ℕ} → Edge (fail_op now) waiting_tool failed
  break_paused : {now : ℕ} → Edge (fail_op now) paused failed
  hold : Edge pause_op running paused
  hold_waiting : Edge pause_op waiting_tool paused
  go_on : Edge resume_op paused running
  drop_pending : {now : ℕ} → Edge (cancel_op now) pending canceled
  drop_running : {now : ℕ} → Edge (cancel_op now) running canceled
  drop_waiting : {now : ℕ} → Edge (cancel_op now) waiting_tool canceled
  drop_paused : {now : ℕ} → Edge (cancel_op now) paused canceled

-- The state that an edge leads to.
target : Op → State → Option State
target (start_op now) pending = some running
target (start_op now) _ = none
target (complete_op now) running = some completed
target (complete_op now) waiting_tool = some completed
target (complete_op now) _ = none
target (fail_op now) running = some failed
target (fail_op now) waiting_tool = some failed
target (fail_op now) paused = some failed
target (fail_op now) _ = none
target (cancel_op now) pending = some canceled
target (cancel_op now) running = some canceled
target (cancel_op now) waiting_tool = some canceled
target (cancel_op now) paused = some canceled
target (cancel_op now) _ = none
target pause_op running = some paused
target pause_op waiting_tool = some paused
target pause_op _ = none
target resume_op paused = some running
target resume_op _ = none

edge-cases :
    (op : Op) (s : State)
    → ((t : State) × Edge op s t × (target op s ≡ some t)) ⊎ (target op s ≡ none)
unfolding target
edge-cases (start_op now) pending = inl (running, begin, refl)
edge-cases (start_op now) _ = inr refl
edge-cases (complete_op now) running = inl (completed, finish, refl)
edge-cases (complete_op now) waiting_tool = inl (completed, finish_waiting, refl)
edge-cases (complete_op now) _ = inr refl
edge-cases (fail_op now) running = inl (failed, break, refl)
edge-cases (fail_op now) waiting_tool = inl (failed, break_waiting, refl)
edge-cases (fail_op now) paused = inl (failed, break_paused, refl)
edge-cases (fail_op now) _ = inr refl
edge-cases (cancel_op now) pending = inl (canceled, drop_pending, refl)
edge-cases (cancel_op now) running = inl (canceled, drop_running, refl)
edge-cases (cancel_op now) waiting_tool = inl (canceled, drop_waiting, refl)
edge-cases (cancel_op now) paused = inl (canceled, drop_paused, refl)
edge-cases (cancel_op now) _ = inr refl
edge-cases pause_op running = inl (paused, hold, refl)
edge-cases pause_op waiting_tool = inl (paused, hold_waiting, refl)
edge-cases pause_op _ = inr refl
edge-cases resume_op paused = inl (running, go_on, refl)
edge-cases resume_op _ = inr refl

Edge-target : {op : Op} {s t : State} → Edge op s t → target op s ≡ some t
unfolding target
Edge-target begin = refl
Edge-target finish = refl
Edge-target finish_waiting = refl
Edge-target break = refl
Edge-target break_waiting = refl
Edge-target break_paused = refl
Edge-target drop_pending = refl
Edge-target drop_running = refl
Edge-target drop_waiting = refl
Edge-target drop_paused = refl
Edge-target hold = refl
Edge-target hold_waiting = refl
Edge-target go_on = refl

no_target : {op : Op} {s : State} → target op s ≡ none → (t : State) → ¬ Edge op s t
no_target q t e = absurd (none_found (sym q ∙ Edge-target e))
  where
    none_found : {t : State} → ◌≡◌ {A = Option State} none (some t) → ⊥
    none_found h = absurd (cc)

module _ (f : Floats) where
  pub step : Run f → Op → Run f × Option String
  unfolding start complete fail pause resume cancel
  step r (start_op now) = start f r now
  step r (complete_op now) = complete f r now
  step r (fail_op now) = fail f r now
  step r (cancel_op now) = cancel f r now
  step r pause_op = pause f r
  step r resume_op = resume f r

  -- A run that a call has brought to a state: the start sets the start time, a call that ends the
  -- run the end time, and nothing else changes.
  abbrev pub moved : Op → State → Run f → Run f
  moved (start_op now) t r = record r { state = t; started_at = now }
  moved (complete_op now) t r = record r { state = t; ended_at = some now }
  moved (fail_op now) t r = record r { state = t; ended_at = some now }
  moved (cancel_op now) t r = record r { state = t; ended_at = some now }
  moved pause_op t r = record r { state = t }
  moved resume_op t r = record r { state = t }

  abbrev pub Moves : Run f → Op → Type 0
  Moves r op = (t : State) × Edge op r.state t × (step r op ≡ (moved op t r, none))

  abbrev pub Refuses : Run f → Op → Type 0
  Refuses r op =
      ((t : State) → ¬ Edge op r.state t) × (step r op ≡ (r, some Codes.invariant_violated))

  abbrev outcome : Run f → Op → Option State → Run f × Option String
  outcome r op none = (r, some Codes.invariant_violated)
  outcome r op (some t) = (moved op t r, none)

  step-target : (r : Run f) (op : Op) → step r op ≡ outcome r op (target op r.state)
  unfolding step target
  step-target r (start_op now) = ground arith
  step-target r (complete_op now) = ground arith
  step-target r (fail_op now) = ground arith
  step-target r (cancel_op now) = ground arith
  step-target r pause_op = ground arith
  step-target r resume_op = ground arith

  -- Where the diagram has an edge for a call from the run's state, the call follows it, sets the time
  -- that goes with it and nothing else, and returns no error; where it has none, the call returns an
  -- invariant violation and leaves the run as it was.
  pub step_exact : (r : Run f) (op : Op) → Moves r op ⊎ Refuses r op
  step_exact r op = elim (edge-cases op r.state) [
    | inl (t, edge, q) ↦ inl (t, edge, step-target r op ∙ ap (outcome r op) q)
    | inr q ↦ inr (no_target q, step-target r op ∙ ap (outcome r op) q)
  ]

  pub run_all : Run f → List Op → Run f
  unfolding step
  run_all r [] = r
  run_all r (op ∷ ops) = run_all (step r op).0 ops

  -- The end time is set exactly in a terminal state, and the start time is still unset in a pending
  -- one.
  pub record IsTimed (r : Run f) : Type 0 where
    pub ended : is_some r.ended_at ≡ is_terminal r.state
    pub unstarted : r.state ≡ pending → r.started_at ≡ 0

  step-IsTimed : (r : Run f) (op : Op) → IsTimed r → IsTimed (step r op).0
  unfolding step
  step-IsTimed r op h = ground arith

  run_all-IsTimed : (r : Run f) (ops : List Op) → IsTimed r → IsTimed (run_all r ops)
  unfolding run_all
  run_all-IsTimed r [] h = h
  run_all-IsTimed r (op ∷ ops) h = run_all-IsTimed (step r op).0 ops (step-IsTimed r op h)

  -- After any calls on a new run, the end time is set exactly if the run is in a terminal state, and
  -- the start time is still unset if it is pending.
  new_run-IsTimed :
      (id brain_id : String) (b : Budget f) (ops : List Op)
      → IsTimed (run_all (new_run f id brain_id b) ops)
  unfolding new_run
  new_run-IsTimed id brain_id b ops =
      run_all-IsTimed (new_run f id brain_id b) ops (record { ended = refl; unstarted = λ e. refl })
