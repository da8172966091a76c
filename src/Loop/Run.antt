-- ===== src/Loop/Run.antt =====
-- loop/run.go and loop/run_helper.go: the life of a run. A method that mutates the run returns the
-- new run, and the code of the error if it returns one. Times are in nanoseconds.
pub mod States
mod Tests
use brain.Prelude.{ℕ, String, Option, none, some}
use brain.Prelude.Int.{ℤ, pos}
use brain.Loop.Budget.{Floats, Budget}
use brain.Errors.Codes

-- `type State string`: the eight constants, and any other text.
pub data State : Type 0 where
  pending running waiting_tool paused completed failed canceled crashed : State
  other_state : String → State

module _ (f : Floats) where
  pub record Run : Type 0 where
    pub id : String
    pub brain_id : String
    pub state : State
    pub budget : Budget f
    pub started_at : ℕ
    pub ended_at : Option ℕ
    pub current_turn : ℤ

  -- `NewRun`
  unfoldable pub new_run : String → String → Budget f → Run
  new_run id brain_id budget = record {
    id = id;
    brain_id = brain_id;
    state = pending;
    budget = budget;
    started_at = 0;
    ended_at = none;
    current_turn = pos 0;
  }

  -- An illegal transition returns an error and changes nothing.
  abbrev illegal : Run → Run × Option String
  illegal r = (r, some Codes.invariant_violated)

  abbrev end_in : State → ℕ → Run → Run × Option String
  end_in s now r = (record r { state = s; ended_at = some now }, none)

  start_from : State → ℕ → Run → Run × Option String
  start_from pending now r = (record r { state = running; started_at = now }, none)
  start_from _ now r = illegal r

  complete_from : State → ℕ → Run → Run × Option String
  complete_from running now r = end_in completed now r
  complete_from waiting_tool now r = end_in completed now r
  complete_from _ now r = illegal r

  fail_from : State → ℕ → Run → Run × Option String
  fail_from running now r = end_in failed now r
  fail_from waiting_tool now r = end_in failed now r
  fail_from paused now r = end_in failed now r
  fail_from _ now r = illegal r

  pause_from : State → Run → Run × Option String
  pause_from running r = (record r { state = paused }, none)
  pause_from waiting_tool r = (record r { state = paused }, none)
  pause_from _ r = illegal r

  resume_from : State → Run → Run × Option String
  resume_from paused r = (record r { state = running }, none)
  resume_from _ r = illegal r

  cancel_from : State → ℕ → Run → Run × Option String
  cancel_from pending now r = end_in canceled now r
  cancel_from running now r = end_in canceled now r
  cancel_from waiting_tool now r = end_in canceled now r
  cancel_from paused now r = end_in canceled now r
  cancel_from _ now r = illegal r

  -- `Start`, `Complete`, `Fail`, `Pause`, `Resume`, `Cancel`: each switches on `r.State`.
  unfoldable pub start : Run → ℕ → Run × Option String
  unfolding start_from
  start r now = start_from r.state now r

  unfoldable pub complete : Run → ℕ → Run × Option String
  unfolding complete_from
  complete r now = complete_from r.state now r

  unfoldable pub fail : Run → ℕ → Run × Option String
  unfolding fail_from
  fail r now = fail_from r.state now r

  unfoldable pub pause : Run → Run × Option String
  unfolding pause_from
  pause r = pause_from r.state r

  unfoldable pub resume : Run → Run × Option String
  unfolding resume_from
  resume r = resume_from r.state r

  unfoldable pub cancel : Run → ℕ → Run × Option String
  unfolding cancel_from
  cancel r now = cancel_from r.state now r
