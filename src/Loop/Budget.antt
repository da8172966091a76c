-- ===== src/Loop/Budget.antt =====
-- loop/budget.go. A float64 amount of dollars is an abstract number with the comparisons and the
-- difference that the code uses. `*Budget` may be nil, which is `none`; durations are int64
-- nanoseconds. An error is the code that it is made with.
pub mod Limits
mod Tests
use brain.Prelude.{String, Bool, ◌&&◌, Option, none, some, if◌then◌else◌}
use brain.Prelude.Int.{ℤ, pos, ◌-ℤ◌, ltb_ℤ, leb_ℤ, wrap64}
use brain.Errors.Codes

-- The float64 operations of this file.
pub record Floats : Type 1 where
  pub Float : Type 0
  pub zero_float : Float
  pub add_float : Float → Float → Float
  pub sub_float : Float → Float → Float
  pub lt_float : Float → Float → Bool
  pub le_float : Float → Float → Bool

-- `max > 0 && used >= max`
abbrev pub exhausted : ℤ → ℤ → Bool
exhausted max used = ltb_ℤ (pos 0) max && leb_ℤ max used

-- An int difference that is cut off at 0.
abbrev pub left_of : ℤ → ℤ → ℤ
left_of max used = let d = wrap64 (max -ℤ used) in if ltb_ℤ d (pos 0) then pos 0 else d

module _ (f : Floats) where
  open f use {Float, zero_float, sub_float, lt_float, le_float}

  pub record Budget : Type 0 where
    pub max_turns : ℤ
    pub max_cost_usd : Float
    pub max_tool_calls : ℤ
    pub max_llm_calls : ℤ
    pub max_duration : ℤ
    pub used_turns : ℤ
    pub used_cost_usd : Float
    pub used_tool_calls : ℤ
    pub used_llm_calls : ℤ
    pub elapsed_time : ℤ

  -- `llm.BudgetSnapshot`
  pub record BudgetSnapshot : Type 0 where
    pub turns_remaining : ℤ
    pub cost_usd_remaining : Float
    pub tokens_remaining : ℤ

  abbrev pub cost_exhausted : Budget → Bool
  cost_exhausted b = lt_float zero_float b.max_cost_usd && le_float b.max_cost_usd b.used_cost_usd

  -- `CheckTurn`
  unfoldable pub check_turn : Option Budget → Option String
  check_turn none = none
  check_turn (some b) =
      if exhausted b.max_turns b.used_turns
      then some Codes.budget_turns_exhausted
      else if cost_exhausted b
      then some Codes.budget_cost_exhausted
      else if exhausted b.max_llm_calls b.used_llm_calls
      then some Codes.budget_llm_calls_exhausted
      else if exhausted b.max_tool_calls b.used_tool_calls
      then some Codes.budget_tool_calls_exhausted
      else if exhausted b.max_duration b.elapsed_time
      then some Codes.budget_timeout_exhausted
      else none

  -- `CheckCost`
  unfoldable pub check_cost : Option Budget → Option String
  check_cost none = none
  check_cost (some b) =
      if cost_exhausted b
      then some Codes.budget_cost_exhausted
      else if exhausted b.max_llm_calls b.used_llm_calls
      then some Codes.budget_llm_calls_exhausted
      else none

  -- `Remaining`; `TokensRemaining` is computed from the LLM calls.
  unfoldable pub remaining : Option Budget → BudgetSnapshot
  remaining none = record {
    turns_remaining = pos 0;
    cost_usd_remaining = zero_float;
    tokens_remaining = pos 0;
  }
  remaining (some b) =
      let cost = sub_float b.max_cost_usd b.used_cost_usd in
      record {
        turns_remaining = left_of b.max_turns b.used_turns;
        cost_usd_remaining = if lt_float cost zero_float then zero_float else cost;
        tokens_remaining = left_of b.max_llm_calls b.used_llm_calls;
      }
