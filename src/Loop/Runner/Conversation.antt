-- ===== src/Loop/Runner/Conversation.antt =====
-- What the loop of loop/runner.go appends to the conversation.
use mathlib.Core.Path.{subst}
use brain.Prelude.{
  ℕ, zero, suc, String, ◌≡◌, refl, sym, ap, ◌∙◌, inl, inr, Bool, true, ◌||◌, not, Option, none,
  some, List, [], ◌∷◌, ◌++◌, map, nat_eq, string_eq, ◌==◌, Bool-cases, is_nil,
}
use brain.Loop.Chat.{
  ContentBlock, Message, RunOptions, ToolResult, Outcome, done, failed_with, is_live, ChatResponse,
  Completion, responded, llm_error, Env,
}
use brain.Loop.Detector.{MemLoopDetector}
use brain.Loop.Run.{Run}
use brain.Loop.Runner.{
  executed, extract_tool_use_blocks, with_defaults, Exec, dispatch_one, dispatch_tools, detect,
  Next, go_on, stop, round, loop, execute, count_call, begin_turn, provider_answer, Bool, call_llm,
  true, suc, canceled_at_end, after_completion, guarded, after_tools, after_cost, dispatch_result,
  sanitized,
}
use mathlib.Core.List.{append-nil, append_assoc}
use brain.Loop.Budget.{Floats}
use brain.Prelude.Int.{int_eq}

-- The ids of a message's blocks, in order.
pub tool_use_ids : List ContentBlock → List String
tool_use_ids bs = map (λ (b : ContentBlock). b.tool_use_id) bs

-- A user message that answers an assistant's, block by block.
pub Answers : Message → Message → Type 0
Answers t a =
    (a.role ≡ "assistant")
    × (t.role ≡ "user")
    × (tool_use_ids t.content ≡ tool_use_ids (extract_tool_use_blocks a.content))

-- Assistant messages, each but the last with the answer to its tool calls after it.
pub IsDialogue : List Message → Type 0
IsDialogue [] = Unit
IsDialogue (a ∷ []) = a.role ≡ "assistant"
IsDialogue (a ∷ t ∷ rest) = Answers t a × IsDialogue rest

module _ (f : Floats) (env : Env f) where
  open env use {World, now, ctx, call_provider, has_tool, execute_tool, has_sanitizer, sanitize}

  sanitized-tool_use_id :
      (tb : ContentBlock) (o : Outcome ContentBlock)
      → (sanitized f env tb o).tool_use_id ≡ tb.tool_use_id
  sanitized-tool_use_id tb (failed_with e) = refl
  sanitized-tool_use_id tb (done block) = refl

  dispatch_result-tool_use_id :
      (tb : ContentBlock) (o : Outcome ToolResult) (w : World)
      → (dispatch_result f env tb o w).0.tool_use_id ≡ tb.tool_use_id
  dispatch_result-tool_use_id tb (failed_with e) w = refl
  dispatch_result-tool_use_id tb (done result) w = elim (Bool-cases has_sanitizer) [
    | inl e ↦ rw e (sanitized-tool_use_id tb (sanitize result tb.tool_name w).0)
    | inr e ↦ rw e refl
  ]

  dispatch_one-tool_use_id :
      (tb : ContentBlock) (w : World) → (dispatch_one f env tb w).0.tool_use_id ≡ tb.tool_use_id
  unfolding dispatch_one
  dispatch_one-tool_use_id tb w = elim (Bool-cases (has_tool tb.tool_name w)) [
    | inr e ↦ rw e refl
    | inl e ↦
        let (o, w') = execute_tool tb.tool_name tb.input w in
        rw e (dispatch_result-tool_use_id tb o w')
  ]

  -- Every tool call gets one result, under its own id, in the order of the calls.
  pub dispatch_tools-tool_use_ids :
      (tbs : List ContentBlock) (w : World)
      → tool_use_ids (dispatch_tools f env tbs w).0 ≡ tool_use_ids tbs
  unfolding dispatch_tools tool_use_ids
  dispatch_tools-tool_use_ids [] w = refl
  dispatch_tools-tool_use_ids (tb ∷ tbs) w =
      let (block, w') = dispatch_one f env tb w in
      let e = dispatch_one-tool_use_id tb w in let ih = dispatch_tools-tool_use_ids tbs w' in cc

  -- What a round appends: nothing or an assistant's message at the end, and both messages to go on.
  abbrev Appends : List Message → Next f env → Type 0
  Appends ms (go_on s) =
      (a : Message) × (t : Message) × (s.messages ≡ (ms ++ a ∷ []) ++ t ∷ []) × Answers t a
  Appends ms (stop s) = (added : List Message) × (s.messages ≡ ms ++ added) × IsDialogue added

  nothing_added :
      (ms : List Message) → (added : List Message) × (ms ≡ ms ++ added) × IsDialogue added
  unfolding IsDialogue
  nothing_added ms = ([], sym (append-nil ms), tt)

  after_tools-Appends :
      (s : Exec f env) (resp : ChatResponse f) (blocks : List ContentBlock) (ms : List Message)
      (a t : Message)
      → s.messages ≡ (ms ++ a ∷ []) ++ t ∷ []
      → Answers t a
      → Appends ms (after_tools f env s resp blocks)
  unfolding IsDialogue
  after_tools-Appends s resp blocks ms a t e h =
      elim (Bool-cases (detect f env s.detector (not (is_live (ctx s.world))) s.run.id blocks).1) [
        | inl q ↦ rw q (a ∷ t ∷ [], e ∙ append_assoc ms (a ∷ []) (t ∷ []), (h, tt))
        | inr q ↦ rw q (a, t, e, h)
      ]

  after_cost-Appends :
      (s : Exec f env) (resp : ChatResponse f) (code : Option String)
      → Appends s.messages (after_cost f env s resp code)
  unfolding IsDialogue
  after_cost-Appends s resp (some code) = nothing_added s.messages
  after_cost-Appends s resp none =
      let blocks = extract_tool_use_blocks resp.content in
      let a : Message = record { role = "assistant"; content = resp.content } in
      let t : Message = record {
        role = "user";
        content = (dispatch_tools f env blocks s.world).0;
      } in
      elim (Bool-cases (is_nil blocks || not (resp.stop_reason == "tool_use"))) [
        | inl e ↦ rw e (a ∷ [], refl, refl)
        | inr e ↦ rw e (
            after_tools-Appends _ resp blocks s.messages a t refl
              (unfold Answers in (refl, refl, dispatch_tools-tool_use_ids blocks s.world)))
      ]

  after_completion-Appends :
      (s : Exec f env) (c : Completion f) → Appends s.messages (after_completion f env s c)
  after_completion-Appends s (llm_error is_canceled code) =
      elim (Bool-cases (canceled_at_end f env s || is_canceled)) [
        | inl e ↦ rw e (nothing_added s.messages)
        | inr e ↦ rw e (nothing_added s.messages)
      ]
  after_completion-Appends s (responded resp) = after_cost-Appends _ resp _

  call_llm-Appends : (s : Exec f env) (o : RunOptions) → Appends s.messages (call_llm f env s o)
  call_llm-Appends s o =
      let (answer, w) = provider_answer f env (begin_turn f env s) o in
      after_completion-Appends (count_call f env (begin_turn f env s) w) answer

  guarded-Appends :
      (s : Exec f env) (o : RunOptions) (code : Option String)
      → Appends s.messages (guarded f env s o code)
  guarded-Appends s o (some code) = nothing_added s.messages
  guarded-Appends s o none = elim (Bool-cases (is_live (ctx s.world))) [
    | inl e ↦ rw e (call_llm-Appends s o)
    | inr e ↦ rw e (nothing_added s.messages)
  ]

  round-Appends : (s : Exec f env) (o : RunOptions) → Appends s.messages (round f env s o)
  unfolding round
  round-Appends s o = guarded-Appends _ o _

  abbrev pub HasAdded : List Message → Exec f env × Bool → Type 0
  HasAdded ms r = (added : List Message) × (r.0.messages ≡ ms ++ added) × IsDialogue added

  two_more :
      (ms : List Message) (a t : Message) (added : List Message)
      → ((ms ++ a ∷ []) ++ t ∷ []) ++ added ≡ ms ++ a ∷ t ∷ added
  two_more ms a t added = simp append_assoc refl

  after_round :
      (fuel : ℕ) (o : RunOptions) (ms : List Message) (r : Next f env)
      → ((s : Exec f env) → HasAdded s.messages (loop f env fuel s o))
      → Appends ms r
      → HasAdded ms (elim r [ go_on s' ↦ loop f env fuel s' o | stop s' ↦ (s', true) ])
  after_round fuel o ms (go_on s') later (a, t, e, h) =
      let (added, q, d) = later s' in
      (
        a ∷ t ∷ added,
        q ∙ ap (λ ms. ms ++ added) e ∙ two_more ms a t added,
        unfold IsDialogue in (h, d),
      )
  after_round fuel o ms (stop s') later h = h

  pub loop-IsDialogue :
      (fuel : ℕ) (s : Exec f env) (o : RunOptions) → HasAdded s.messages (loop f env fuel s o)
  unfolding loop
  loop-IsDialogue zero s o = nothing_added s.messages
  loop-IsDialogue (suc fuel) s o =
      after_round fuel o s.messages (round f env s o) (λ s'. loop-IsDialogue fuel s' o)
        (round-Appends s o)

  executed-IsDialogue :
      (fuel : ℕ) (s : Exec f env) (o : RunOptions) (error : Option String) (r : Exec f env × Bool)
      → executed f env fuel s o error ≡ some r
      → HasAdded s.messages r
  executed-IsDialogue fuel s o (some code) r h = absurd (cc)
  executed-IsDialogue fuel s o none r h =
      let e : loop f env fuel s (with_defaults o) ≡ r = cc in
      subst (HasAdded s.messages) e (loop-IsDialogue fuel s (with_defaults o))

  -- Whatever `Execute` returns, and however many rounds it makes, the final messages are the initial
  -- ones followed by a dialogue: assistant messages, each but possibly the last followed by a user
  -- message whose blocks carry the ids of the tool calls in the assistant message, in their order,
  -- with none left out or added.
  pub execute-IsDialogue :
      (fuel : ℕ) (r : Run f) (messages : List Message) (d : Option MemLoopDetector) (w : World)
      (o : RunOptions) (result : Exec f env × Bool)
      → execute f env fuel r messages d w o ≡ some result
      → HasAdded messages result
  unfolding execute
  execute-IsDialogue fuel r messages d w o result h = executed-IsDialogue fuel _ o _ result h
