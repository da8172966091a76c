-- ===== src/Loop/Run/Tests.antt =====
-- A run that is started, paused, refused and completed.
use brain.Prelude.{◌⊎◌, some, List, [], ◌∷◌}
use brain.Prelude.Int.{pos}
use brain.Loop.Run.{completed, Run, new_run}
use brain.Loop.Run.States.{
  Op, start_op, complete_op, pause_op, resume_op, Moves, Refuses, step_exact,
}
use brain.Loop.Tests.{cents, some_budget}

abbrev some_ops : List Op
some_ops = start_op 3 ∷ pause_op ∷ complete_op 4 ∷ resume_op ∷ complete_op 5 ∷ []

abbrev fresh : Run cents
fresh = new_run cents "run" "brain" some_budget

abbrev done : Run cents
done = record {
  id = "run";
  brain_id = "brain";
  state = completed;
  budget = some_budget;
  started_at = 3;
  ended_at = some 5;
  current_turn = pos 2;
}

step_exact_example : Moves cents done (start_op 9) ⊎ Refuses cents done (start_op 9)
step_exact_example = step_exact cents done (start_op 9)
