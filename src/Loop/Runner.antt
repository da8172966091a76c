-- ===== src/Loop/Runner.antt =====
-- loop/runner.go and extractToolUseBlocks of loop/turn_executor.go: the turn loop of a run. The tool
-- observer, which is only told, is left out. `Time.Sub` is exact here: it saturates only past 292
-- years.
pub mod Termination
pub mod Conversation
mod Tests
use brain.Prelude.{
  ℕ, zero, suc, String, Bool, true, false, ◌||◌, not, Option, none, some, List, [], ◌∷◌, ◌++◌,
  if◌then◌else◌, nat_eq, string_eq, ◌==◌, concat, is_nil, length,
}
use brain.Prelude.Int.{pos, ◌+ℤ◌, ◌-ℤ◌, leb_ℤ, int_eq, wrap64}
use brain.Errors.Codes
use brain.Loop.Budget.{Floats, check_turn, check_cost, remaining}
use brain.Loop.Run.{State, running, completed, failed, canceled, Run, start, complete, fail, cancel}
use brain.Loop.Detector.{tool_call, content, MemLoopDetector, Observed, verdict, ctx_error, observe}
use brain.Loop.Chat.{
  ContentBlock, Message, RunOptions, ToolResult, Outcome, done, failed_with, is_live,
  is_ctx_canceled, ChatResponse, ChatRequest, Completion, responded, llm_error, TurnResult, Env,
}

-- `extractToolUseBlocks`
pub extract_tool_use_blocks : List ContentBlock → List ContentBlock
extract_tool_use_blocks [] = []
extract_tool_use_blocks (b ∷ bs) =
    let rest = extract_tool_use_blocks bs in if b.type == "tool_use" then b ∷ rest else rest

abbrev pub tool_result : String → String → Bool → ContentBlock
tool_result id output is_error = record {
  type = "tool_result";
  text = "";
  tool_use_id = id;
  tool_name = "";
  input = "";
  output = output;
  is_error = is_error;
}

-- `buildChatRequest`'s defaults, which `Execute` sets.
abbrev pub with_defaults : RunOptions → RunOptions
with_defaults o = record o {
  tool_choice = if o.tool_choice == "" then "auto" else o.tool_choice;
  max_tokens = if leb_ℤ o.max_tokens (pos 0) then pos 4096 else o.max_tokens;
}

module _ (f : Floats) (env : Env f) where
  open f use {Float, add_float}
  open env use {
    World, now, ctx, call_provider, has_tool, execute_tool, has_sanitizer, sanitize, content_hash,
  }

  pub record Exec : Type 0 where
    pub run : Run f
    pub messages : List Message
    pub turns : List (TurnResult f)
    pub detector : Option MemLoopDetector
    pub world : World

  abbrev pub build_chat_request : Run f → List Message → RunOptions → ChatRequest f
  build_chat_request r messages o = record {
    run_id = r.id;
    turn_index = r.current_turn;
    brain_id = r.brain_id;
    messages = messages;
    tool_choice = o.tool_choice;
    model = o.model;
    max_tokens = o.max_tokens;
    stream = o.stream;
    remaining_budget = remaining f (some r.budget);
  }

  -- The end of one round of `dispatchTools`, from the sanitizer on.
  abbrev sanitized : ContentBlock → Outcome ContentBlock → ContentBlock
  sanitized tb (failed_with e) =
      tool_result tb.tool_use_id (concat (concat "\"tool result sanitization failed: " e) "\"") true
  sanitized tb (done block) = record block { tool_use_id = tb.tool_use_id }

  abbrev dispatch_result : ContentBlock → Outcome ToolResult → World → ContentBlock × World
  dispatch_result tb (failed_with e) w =
      (tool_result tb.tool_use_id (concat (concat "\"tool execution failed: " e) "\"") true, w)
  dispatch_result tb (done result) w =
      let (o, w') = sanitize result tb.tool_name w in
      if has_sanitizer
      then (sanitized tb o, w')
      else (tool_result tb.tool_use_id result.output result.is_error, w)

  -- One round of `dispatchTools`.
  pub dispatch_one : ContentBlock → World → ContentBlock × World
  dispatch_one tb w =
      if not (has_tool tb.tool_name w)
      then (
        tool_result tb.tool_use_id (concat (concat "\"tool not found: " tb.tool_name) "\"") true,
        w,
      )
      else let (o, w') = execute_tool tb.tool_name tb.input w in dispatch_result tb o w'

  -- `dispatchTools`; the count is the number of blocks.
  pub dispatch_tools : List ContentBlock → World → List ContentBlock × World
  unfolding dispatch_one
  dispatch_tools [] w = ([], w)
  dispatch_tools (tb ∷ tbs) w =
      let (block, w') = dispatch_one tb w in
      let (blocks, w'') = dispatch_tools tbs w' in (block ∷ blocks, w'')

  abbrev is_loop_verdict : Observed → Bool
  is_loop_verdict (verdict v) = v.is_loop
  is_loop_verdict ctx_error = false

  -- The loop over the detector, until it reports a loop.
  pub observe_blocks : MemLoopDetector → Bool → String → List ContentBlock → MemLoopDetector × Bool
  observe_blocks d ctx_err run_id [] = (d, false)
  observe_blocks d ctx_err run_id (tb ∷ tbs) =
      let (d', o) = observe d ctx_err run_id (record {
        type = tool_call;
        tool_name = tb.tool_name;
        content_hash = content_hash tb.tool_name tb.input;
        trace_id = "";
      }) in
      let rest = observe_blocks d' ctx_err run_id tbs in
      if is_loop_verdict o then (d', true) else rest

  pub detect :
      Option MemLoopDetector → Bool → String → List ContentBlock → Option MemLoopDetector × Bool
  unfolding observe_blocks
  detect none ctx_err run_id tbs = (none, false)
  detect (some d) ctx_err run_id tbs =
      let (d', found) = observe_blocks d ctx_err run_id tbs in (some d', found)

  -- A call of `run.Fail`, `run.Complete` or `run.Cancel` whose error is dropped, at the next reading
  -- of the clock.
  abbrev pub finish_run : (Run f → ℕ → Run f × Option String) → Exec → Exec
  finish_run op s = let (t, w) = now s.world in record s { run = (op s.run t).0; world = w }

  -- `turn.End(r.now())`, and the result of the turn.
  abbrev pub end_turn : Exec → ℕ → Option (ChatResponse f) → State → Option String → Exec
  end_turn s tool_calls resp next error =
      let (t, w) = now s.world in
      record s {
        turns =
            s.turns
            ++ record {
              index = s.run.current_turn;
              llm_calls = 1;
              tool_calls = tool_calls;
              ended_at = some t;
              response = resp;
              next_state = next;
              error = error;
            }
              ∷ [];
        world = w;
      }

  -- Whether the loop goes on.
  pub data Next : Type 0 where
    go_on : Exec → Next
    stop : Exec → Next

  -- From the detector to the end of the round.
  abbrev after_tools : Exec → ChatResponse f → List ContentBlock → Next
  after_tools s resp blocks =
      let (d, found) = detect s.detector (not (is_live (ctx s.world))) s.run.id blocks in
      let s' = record s { detector = d } in
      if found
      then stop (
          finish_run (fail f)
            (end_turn s' (length blocks) (some resp) failed (some Codes.agent_loop_detected)))
      else go_on (end_turn s' (length blocks) (some resp) running none)

  abbrev with_tools : Exec → ChatResponse f → List ContentBlock → Next
  with_tools s resp blocks =
      let (results, w) = dispatch_tools blocks s.world in
      let b = s.run.budget in
      after_tools
        (record s {
          run = record s.run {
            state = running;
            budget = record b {
              used_tool_calls = wrap64 (b.used_tool_calls +ℤ pos (length blocks));
            };
          };
          messages = s.messages ++ record { role = "user"; content = results } ∷ [];
          world = w;
        })
        resp blocks

  abbrev after_cost : Exec → ChatResponse f → Option String → Next
  after_cost s resp (some code) =
      stop (finish_run (fail f) (end_turn s 0 (some resp) failed (some code)))
  after_cost s resp none =
      let s' = record s {
        messages = s.messages ++ record { role = "assistant"; content = resp.content } ∷ [];
      } in
      let blocks = extract_tool_use_blocks resp.content in
      if is_nil blocks || not (resp.stop_reason == "tool_use")
      then stop (finish_run (complete f) (end_turn s' 0 (some resp) completed none))
      else with_tools s' resp blocks

  -- Whether `errors.Is(ctx.Err(), context.Canceled)`, once the clock has been read for `turn.End`.
  abbrev canceled_at_end : Exec → Bool
  canceled_at_end s = let (t, w) = now s.world in is_ctx_canceled (ctx w)

  -- The provider has answered.
  abbrev after_completion : Exec → Completion f → Next
  after_completion s (llm_error is_canceled code) =
      if canceled_at_end s || is_canceled
      then stop (finish_run (cancel f) (end_turn s 0 none canceled (some code)))
      else stop (finish_run (fail f) (end_turn s 0 none failed (some code)))
  after_completion s (responded resp) =
      let b = s.run.budget in
      let b' = record b {
        used_cost_usd = add_float b.used_cost_usd resp.cost_usd;
        used_turns = wrap64 (b.used_turns +ℤ pos 1);
      } in
      after_cost (record s { run = record s.run { budget = b' } }) resp (check_cost f (some b'))

  -- `run.CurrentTurn++`
  abbrev begin_turn : Exec → Exec
  begin_turn s = record s {
    run = record s.run { current_turn = wrap64 (s.run.current_turn +ℤ pos 1) };
  }

  -- `run.Budget.UsedLLMCalls++`, once the call has returned.
  abbrev count_call : Exec → World → Exec
  count_call s w =
      let b = s.run.budget in
      record s {
        run = record s.run {
          budget = record b { used_llm_calls = wrap64 (b.used_llm_calls +ℤ pos 1) };
        };
        world = w;
      }

  abbrev provider_answer : Exec → RunOptions → Completion f × World
  provider_answer s o = call_provider (build_chat_request s.run s.messages o) s.world

  abbrev call_llm : Exec → RunOptions → Next
  call_llm s o =
      let s' = begin_turn s in
      let (answer, w) = provider_answer s' o in after_completion (count_call s' w) answer

  -- The guards of a round: the budget first, then the context.
  abbrev guarded : Exec → RunOptions → Option String → Next
  guarded s o (some code) =
      let s' = finish_run (fail f) s in
      stop (record s' {
        turns =
            s'.turns
            ++ record {
              index = wrap64 (s'.run.current_turn +ℤ pos 1);
              llm_calls = 0;
              tool_calls = 0;
              ended_at = none;
              response = none;
              next_state = failed;
              error = some code;
            }
              ∷ [];
      })
  guarded s o none =
      if not (is_live (ctx s.world)) then stop (finish_run (cancel f) s) else call_llm s o

  -- One round of the loop.
  pub round : Exec → RunOptions → Next
  unfolding dispatch_tools detect extract_tool_use_blocks
  round s o =
      let (t, w) = now s.world in
      let b = record s.run.budget { elapsed_time = wrap64 (pos t -ℤ pos s.run.started_at) } in
      guarded (record s { run = record s.run { budget = b }; world = w }) o (check_turn f (some b))

  -- The loop, on fuel: whether it has ended, and what it has come to.
  pub loop : ℕ → Exec → RunOptions → Exec × Bool
  loop zero s o = (s, false)
  loop (suc n) s o = elim (round s o) [ go_on s' ↦ loop n s' o | stop s' ↦ (s', true) ]

  abbrev executed : ℕ → Exec → RunOptions → Option String → Option (Exec × Bool)
  executed n s o (some code) = none
  executed n s o none = some (loop n s (with_defaults o))

  -- `Execute`; `none` is the error of `run.Start`.
  pub execute :
      ℕ → Run f → List Message → Option MemLoopDetector → World → RunOptions → Option (Exec × Bool)
  unfolding loop
  execute n r messages d w o =
      let (t, w') = now w in
      let (r', error) = start f r t in
      executed n (record { run = r'; messages = messages; turns = []; detector = d; world = w' }) o
        error
