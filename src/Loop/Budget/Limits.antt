-- ===== src/Loop/Budget/Limits.antt =====
-- The budget checks against the limits that they stand for, and against the snapshot.
use brain.Prelude.{
  inl, inr, Bool-cases, ltb, inl, ltb, Bool-cases, ℕ, string_eq, if◌then◌else◌, true, Option, Bool,
  String, ◌≡◌, ◌↔◌, ◌⊎◌, false, none, some, arith,
}
use brain.Prelude.Int.{negsuc, ℤ, pos, ◌+ℤ◌, ◌≤ℤ◌, ◌<ℤ◌, IsInt64}
use brain.Loop.Budget.{
  Option, left_of, ℤ, Bool, exhausted, Floats, Budget, cost_exhausted, check_turn, check_cost,
  remaining,
}
use brain.Errors.Codes

exhausted_iff : (m u : ℤ) → (exhausted m u ≡ false) ↔ (pos 0 <ℤ m → u <ℤ m)
exhausted_iff m u = ((λ h p. ground arith), (λ h. ground arith))

-- `CheckTurn` over the outcome of its five tests.
abbrev ladder : Bool → Bool → Bool → Bool → Bool → Option String
ladder t c l o d =
    if t
    then some Codes.budget_turns_exhausted
    else if c
    then some Codes.budget_cost_exhausted
    else if l
    then some Codes.budget_llm_calls_exhausted
    else if o
    then some Codes.budget_tool_calls_exhausted
    else if d
    then some Codes.budget_timeout_exhausted
    else none

ladder-eq-none_iff :
    (t c l o d : Bool)
    → (ladder t c l o d ≡ none)
      ↔ ((t ≡ false) × (c ≡ false) × (l ≡ false) × (o ≡ false) × (d ≡ false))
ladder-eq-none_iff t c l o d = ((λ h. ground arith), (λ h. ground arith))

ladder_turns :
    (t c l o d : Bool) → (ladder t c l o d ≡ some Codes.budget_turns_exhausted) ↔ (t ≡ true)
ladder_turns t c l o d = (
  (λ h. ground (
    arith,
    string_eq.beq_iff Codes.budget_cost_exhausted Codes.budget_turns_exhausted,
    string_eq.beq_iff Codes.budget_llm_calls_exhausted Codes.budget_turns_exhausted,
    string_eq.beq_iff Codes.budget_tool_calls_exhausted Codes.budget_turns_exhausted,
    string_eq.beq_iff Codes.budget_timeout_exhausted Codes.budget_turns_exhausted,
  )),
  λ h. ground arith,
)

left_or_over :
    (m u : ℕ)
    → IsInt64 (pos m)
    → IsInt64 (pos u)
    → (left_of (pos m) (pos u) +ℤ pos u ≡ pos m)
      ⊎ ((pos m <ℤ pos u) × (left_of (pos m) (pos u) ≡ pos 0))
left_or_over m u im iu = elim (Bool-cases (ltb m u)) [
  | inl over ↦ inr (ground arith, ground arith)
  | inr under ↦ inl (ground arith)
]

left_of_lem :
    (m u : ℤ)
    → IsInt64 m
    → IsInt64 u
    → pos 0 ≤ℤ u
    → pos 0 <ℤ m
    → (pos 0 ≤ℤ left_of m u)
      × ((left_of m u +ℤ u ≡ m) ⊎ ((m <ℤ u) × (left_of m u ≡ pos 0)))
      × ((left_of m u ≡ pos 0) ↔ (exhausted m u ≡ true))
left_of_lem (pos m) (pos u) im iu pu pm =
    (ground arith, left_or_over m u im iu, ((λ h. ground arith), (λ h. ground arith)))
left_of_lem (negsuc m) u im iu pu pm = absurd (omega arith)
left_of_lem (pos m) (negsuc u) im iu pu pm = absurd (omega arith)

module _ (f : Floats) where
  -- No limit that is set has been reached.
  pub record IsWithin (b : Budget f) : Type 0 where
    pub turns : pos 0 <ℤ b.max_turns → b.used_turns <ℤ b.max_turns
    pub cost : cost_exhausted f b ≡ false
    pub llm_calls : pos 0 <ℤ b.max_llm_calls → b.used_llm_calls <ℤ b.max_llm_calls
    pub tool_calls : pos 0 <ℤ b.max_tool_calls → b.used_tool_calls <ℤ b.max_tool_calls
    pub time : pos 0 <ℤ b.max_duration → b.elapsed_time <ℤ b.max_duration

  -- `CheckTurn` passes a budget exactly if no limit that is set has been reached.
  pub check_turn_iff : (b : Budget f) → (check_turn f (some b) ≡ none) ↔ IsWithin b
  unfolding check_turn
  check_turn_iff b =
      let (to, from) =
        ladder-eq-none_iff (exhausted b.max_turns b.used_turns) (cost_exhausted f b)
          (exhausted b.max_llm_calls b.used_llm_calls)
          (exhausted b.max_tool_calls b.used_tool_calls)
          (exhausted b.max_duration b.elapsed_time) in
      (
        (λ h. record {
          turns = (exhausted_iff _ _).0 (to h).0;
          cost = (to h).1;
          llm_calls = (exhausted_iff _ _).0 (to h).2;
          tool_calls = (exhausted_iff _ _).0 (to h).3;
          time = (exhausted_iff _ _).0 (to h).4;
        }),
        (λ w. from (
          (exhausted_iff _ _).1 w.turns,
          w.cost,
          (exhausted_iff _ _).1 w.llm_calls,
          (exhausted_iff _ _).1 w.tool_calls,
          (exhausted_iff _ _).1 w.time,
        )),
      )

  -- A budget that `CheckTurn` passes is passed by `CheckCost` too, and what `CheckCost` refuses is
  -- refused by `CheckTurn`, with the same code unless the turns had run out before.
  pub check_cost-check_turn :
      (b : Budget f) (c : String)
      → check_cost f (some b) ≡ some c
      → (check_turn f (some b) ≡ some c)
        ⊎ (check_turn f (some b) ≡ some Codes.budget_turns_exhausted)
  unfolding check_turn check_cost
  check_cost-check_turn b c h = ground arith

  -- For int64 counters that are not negative, the snapshot shows what is left: the turns used and
  -- the turns remaining add up to the limit until it is reached, after which 0 remain, and a limit
  -- that is set shows 0 turns exactly if `CheckTurn` would refuse for the turns.
  remaining_turns :
      (b : Budget f)
      → IsInt64 b.max_turns
      → IsInt64 b.used_turns
      → pos 0 ≤ℤ b.used_turns
      → pos 0 <ℤ b.max_turns
      → let left = (remaining f (some b)).turns_remaining in
        (pos 0 ≤ℤ left)
        × ((left +ℤ b.used_turns ≡ b.max_turns) ⊎ ((b.max_turns <ℤ b.used_turns) × (left ≡ pos 0)))
        × ((left ≡ pos 0) ↔ (check_turn f (some b) ≡ some Codes.budget_turns_exhausted))
  unfolding remaining check_turn
  remaining_turns b im iu pu pm =
      let (p, q, r) = left_of_lem b.max_turns b.used_turns im iu pu pm in
      let (to, from) =
        ladder_turns (exhausted b.max_turns b.used_turns) (cost_exhausted f b)
          (exhausted b.max_llm_calls b.used_llm_calls)
          (exhausted b.max_tool_calls b.used_tool_calls)
          (exhausted b.max_duration b.elapsed_time) in
      (p, q, ((λ h. from (r.0 h)), (λ h. r.1 (to h))))
