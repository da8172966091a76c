-- ===== src/Loop/Runner/Termination.antt =====
-- A run with a limit on its turns comes to an end: the loop of `Execute` in loop/runner.go.
use brain.Loop.Runner.{
  extract_tool_use_blocks, with_defaults, Exec, detect, Next, go_on, stop, round, loop, execute,
  MemLoopDetector, call_llm, canceled_at_end, after_cost, after_completion, guarded, after_tools,
}
use brain.Loop.Chat.{
  ContentBlock, Message, RunOptions, is_live, ChatResponse, Completion, responded, llm_error, Env,
}
use brain.Loop.Run.{pending, running, Run, start, complete, fail, cancel}
use brain.Loop.Budget.Limits.{check_turn_iff}
use brain.Loop.Budget.{Floats, check_turn}
use brain.Prelude.Int.{pos, ◌<ℤ◌, int_eq}
use brain.Prelude.{
  ℕ, zero, suc, ◌+◌, ◌-◌, ◌^◌, ◌≤◌, ◌<◌, String, ◌≡◌, refl, ap, inl, inr, Bool, true, ◌||◌, not,
  Option, none, some, List, [], arith, nat_eq, string_eq, ◌==◌, Bool-cases, Option-cases, is_nil,
}
use brain.Loop.Detector.{MemLoopDetector}
use brain.Loop.Run.States.{is_terminal}

module _ (f : Floats) (env : Env f) where
  open env use {World, now, ctx, call_provider}

  -- What a round comes to: on, with one round less to go, or to an end.
  abbrev pub After : (ℕ → Exec f env → Type 0) → (Exec f env → Type 0) → ℕ → Next f env → Type 0
  After P Q n (go_on s) = (k : ℕ) × (n ≡ suc k) × P k s
  After P Q n (stop s) = Q s

  abbrev Ended : (Exec f env → Type 0) → Exec f env × Bool → Type 0
  Ended Q r = (r.1 ≡ true) × Q r.0

  -- A bound on the rounds to go bounds the loop.
  pub loop_rule :
      (P : ℕ → Exec f env → Type 0) (Q : Exec f env → Type 0) (o : RunOptions)
      → ((n : ℕ) (s : Exec f env) → P n s → After P Q n (round f env s o))
      → (fuel n : ℕ) (s : Exec f env) → n < fuel
      → P n s
      → Ended Q (loop f env fuel s o)
  unfolding loop
  loop_rule P Q o each zero n s h p = absurd (omega arith)
  loop_rule P Q o each (suc fuel) n s h p =
      elim (round f env s o)
          as (λ r.
            After P Q n r
            → Ended Q (elim r [ go_on s' ↦ loop f env fuel s' o | stop s' ↦ (s', true) ])) [
              | go_on s' ↦ λ a. loop_rule P Q o each fuel a.0 s' (omega (arith, a.1)) a.2
              | stop s' ↦ λ q. (refl, q)
            ]
        (each n s p)

  -- A run that is going, with `k` turns left of its `m`.
  abbrev pub HasLeft : ℕ → ℕ → Run f → Type 0
  HasLeft m k r =
      (r.state ≡ running)
      × (r.budget.max_turns ≡ pos m)
      × (u : ℕ) × (r.budget.used_turns ≡ pos u)
      × (k + u ≡ m)

  -- A run that is over, within its `m` turns.
  pub IsOver : ℕ → Run f → Type 0
  IsOver m r = (is_terminal r.state ≡ true) × (u : ℕ) × (r.budget.used_turns ≡ pos u) × (u ≤ m)

  fail-IsOver : (m k : ℕ) (r : Run f) (t : ℕ) → HasLeft m k r → IsOver m (fail f r t).0
  unfolding fail IsOver
  fail-IsOver m k r t (e, _, u, v, l) = rw e (refl, u, v, omega (arith, l))

  complete-IsOver : (m k : ℕ) (r : Run f) (t : ℕ) → HasLeft m k r → IsOver m (complete f r t).0
  unfolding complete IsOver
  complete-IsOver m k r t (e, _, u, v, l) = rw e (refl, u, v, omega (arith, l))

  cancel-IsOver : (m k : ℕ) (r : Run f) (t : ℕ) → HasLeft m k r → IsOver m (cancel f r t).0
  unfolding cancel IsOver
  cancel-IsOver m k r t (e, _, u, v, l) = rw e (refl, u, v, omega (arith, l))

  abbrev Left : ℕ → ℕ → Exec f env → Type 0
  Left m n s = HasLeft m n s.run

  abbrev Over : ℕ → Exec f env → Type 0
  Over m s = IsOver m s.run

  after_tools_lem :
      (m k : ℕ) (s : Exec f env) (resp : ChatResponse f) (blocks : List ContentBlock)
      → HasLeft m k s.run
      → After (Left m) (Over m) (suc k) (after_tools f env s resp blocks)
  after_tools_lem m k s resp blocks h =
      elim (Bool-cases (detect f env s.detector (not (is_live (ctx s.world))) s.run.id blocks).1) [
        | inl e ↦ rw e (fail-IsOver m k s.run _ h)
        | inr e ↦ rw e (k, refl, h)
      ]

  after_cost_lem :
      (m k : ℕ) (s : Exec f env) (resp : ChatResponse f) (code : Option String)
      → HasLeft m k s.run
      → After (Left m) (Over m) (suc k) (after_cost f env s resp code)
  after_cost_lem m k s resp (some code) h = fail-IsOver m k s.run _ h
  after_cost_lem m k s resp none h =
      let blocks = extract_tool_use_blocks resp.content in
      elim (Bool-cases (is_nil blocks || not (resp.stop_reason == "tool_use"))) [
        | inl e ↦ rw e (complete-IsOver m k s.run _ h)
        | inr e ↦ rw e (after_tools_lem m k _ resp blocks (refl, h.1, h.2, h.3, h.4))
      ]

  after_completion_lem :
      (m k : ℕ) (s : Exec f env) (c : Completion f)
      → m < 2 ^ 63
      → HasLeft m (suc k) s.run
      → After (Left m) (Over m) (suc k) (after_completion f env s c)
  after_completion_lem m k s (llm_error is_canceled code) b h =
      elim (Bool-cases (canceled_at_end f env s || is_canceled)) [
        | inl e ↦ rw e (cancel-IsOver m (suc k) s.run _ h)
        | inr e ↦ rw e (fail-IsOver m (suc k) s.run _ h)
      ]
  after_completion_lem m k s (responded resp) b (e, l, u, v, n) =
      after_cost_lem m k _ resp _ (e, l, u + 1, rw v (ground arith), omega arith)

  -- `CheckTurn` passes only where a turn is left.
  turn_left :
      (m n : ℕ) (r : Run f)
      → 0 < m
      → check_turn f (some r.budget) ≡ none
      → HasLeft m n r
      → (k : ℕ) × (n ≡ suc k)
  turn_left m n r p e (_, l, u, v, c) =
      let w = (check_turn_iff f r.budget).0 e in
      let set : pos 0 <ℤ r.budget.max_turns = ground (arith, l, p) in
      let under : r.budget.used_turns <ℤ r.budget.max_turns = w.turns set in
      (n - 1, ground (arith, under, v, l, c))

  call_llm_lem :
      (m k : ℕ) (s : Exec f env) (o : RunOptions)
      → m < 2 ^ 63
      → HasLeft m (suc k) s.run
      → After (Left m) (Over m) (suc k) (call_llm f env s o)
  call_llm_lem m k s o b h = after_completion_lem m k _ _ b h

  guarded_lem :
      (m n : ℕ) (s : Exec f env) (o : RunOptions)
      → 0 < m
      → m < 2 ^ 63
      → HasLeft m n s.run
      → After (Left m) (Over m) n (guarded f env s o (check_turn f (some s.run.budget)))
  guarded_lem m n s o p b h = elim (Option-cases (check_turn f (some s.run.budget))) [
    | inr (code, e) ↦ rw e (fail-IsOver m n s.run _ h)
    | inl e ↦
        let (k, q) = turn_left m n s.run p e h in
        elim (Bool-cases (is_live (ctx s.world))) [
          | inl going ↦ rw (e, going, q) (call_llm_lem m k s o b (rw q at h))
          | inr over ↦ rw (e, over) (cancel-IsOver m n s.run _ h)
        ]
  ]

  round_lem :
      (m : ℕ) (o : RunOptions)
      → 0 < m
      → m < 2 ^ 63
      → (n : ℕ) (s : Exec f env) → HasLeft m n s.run
      → After (Left m) (Over m) n (round f env s o)
  unfolding round
  round_lem m o p b n s h = guarded_lem m n _ o p b h

  start_lem :
      (r : Run f) (t : ℕ)
      → r.state ≡ pending
      → start f r t ≡ (record r { state = running; started_at = t }, none)
  unfolding start
  start_lem r t e = rw e refl

  -- A pending run with a limit of `m` turns, `u` of them used: whatever the provider, the tools, the
  -- sanitizer, the clock and the context do, `Execute` ends after at most `m - u + 1` rounds. It then
  -- returns a run that is in a terminal state and has used no more than `m` turns.
  pub execute-IsOver :
      (m u : ℕ) (r : Run f) (messages : List Message) (d : Option MemLoopDetector) (w : World)
      (o : RunOptions) (fuel : ℕ)
      → r.state ≡ pending
      → r.budget.max_turns ≡ pos m
      → r.budget.used_turns ≡ pos u
      → 0 < m
      → m < 2 ^ 63
      → u ≤ m
      → m - u < fuel
      → (s : Exec f env) × (execute f env fuel r messages d w o ≡ some (s, true)) × IsOver m s.run
  unfolding execute
  execute-IsOver m u r messages d w o fuel e l v p b c g =
      let (t, w') = now w in
      let r' : Run f = record r { state = running; started_at = t } in
      let s : Exec f env = record {
        run = r';
        messages = messages;
        turns = [];
        detector = d;
        world = w';
      } in
      let (ended, over) =
        loop_rule (Left m) (Over m) (with_defaults o) (round_lem m (with_defaults o) p b) fuel
          (m - u) s g (refl, l, u, v, omega arith) in
      (
        (loop f env fuel s (with_defaults o)).0,
        rw (start_lem r t e) (ap (λ x. some ((loop f env fuel s (with_defaults o)).0, x)) ended),
        over,
      )
