-- ===== src/Loop/Runner/Tests.antt =====
-- A model that never stops calling tools, and a run of it.
use brain.Loop.Run.{State, running, failed, Run, new_run, start, fail}
use brain.Loop.Budget.{Budget, check_turn, check_cost, remaining}
use brain.Loop.Runner.{
  extract_tool_use_blocks, with_defaults, Exec, dispatch_one, dispatch_tools, detect, round, loop,
  execute,
}
use brain.Loop.Chat.{ContentBlock, Message, RunOptions, failed_with, live, responded, Env}
use brain.Prelude.{
  ℕ, ◌+◌, ◌≡◌, refl, Bool, true, false, none, some, [], ◌∷◌, map, arith, nat_eq, string_eq, ◌==◌,
  concat, length,
}
use brain.Loop.Runner.Conversation.{HasAdded, execute-IsDialogue}
use brain.Loop.Runner.Termination.{IsOver, execute-IsOver}
use brain.Prelude.Int.{pos, int_eq}
use brain.Loop.Tests.{cents, some_budget}

abbrev a_call : ContentBlock
a_call = record {
  type = "tool_use";
  text = "";
  tool_use_id = "call_1";
  tool_name = "search";
  input = "{}";
  output = "";
  is_error = false;
}

-- The world is a clock, which each call moves on.
abbrev tireless : Env cents
tireless = record {
  World = ℕ;
  now = λ w. (w, w + 1);
  ctx = λ w. live;
  call_provider = λ r w. (
    responded (record { stop_reason = "tool_use"; content = a_call ∷ []; cost_usd = pos 1 }),
    w + 1,
  );
  has_tool = λ name w. name == "search";
  execute_tool = λ name input w. (failed_with "no network", w + 1);
  has_sanitizer = false;
  sanitize = λ r name w. (failed_with "", w);
  content_hash = λ name input. concat name input;
}

abbrev a_budget : Budget cents
a_budget = record some_budget { max_turns = pos 4; used_cost_usd = pos 0 }

abbrev a_run : Run cents
a_run = new_run cents "r1" "central" a_budget

abbrev options : RunOptions
options = record { tool_choice = ""; model = ""; max_tokens = pos 0; stream = false }

abbrev a_question : Message
a_question = record { role = "user"; content = [] }

two_rounds :
    map {B = State × ℕ × Bool}
      (λ (r : Exec cents tireless × Bool). (r.0.run.state, length r.0.messages, r.1))
      (elim (execute cents tireless 3 a_run (a_question ∷ []) none 10 options) [
        | none ↦ []
        | some r ↦ r ∷ []
      ])
    ≡ (failed, 5, true) ∷ []
unfolding execute start loop round dispatch_tools dispatch_one detect extract_tool_use_blocks
    check_turn check_cost remaining fail new_run
two_rounds = refl

execute-IsOver_example :
    (s : Exec cents tireless) × (execute cents tireless 3 a_run (a_question ∷ []) none 10 options
      ≡ some (s, true))
    × IsOver cents tireless 4 s.run
unfolding new_run
execute-IsOver_example =
    execute-IsOver cents tireless 4 2 a_run (a_question ∷ []) none 10 options 3 refl refl refl
      (omega arith) (omega arith) (omega arith) (omega arith)

abbrev a_result : Exec cents tireless × Bool
a_result =
    loop cents tireless 3
      (record {
        run = record a_run { state = running; started_at = 10 };
        messages = a_question ∷ [];
        turns = [];
        detector = none;
        world = 11;
      })
      (with_defaults options)

execute-IsDialogue_example : HasAdded cents tireless (a_question ∷ []) a_result
unfolding execute start new_run
execute-IsDialogue_example =
    execute-IsDialogue cents tireless 3 a_run (a_question ∷ []) none 10 options a_result refl
