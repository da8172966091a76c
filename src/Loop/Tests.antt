-- ===== src/Loop/Tests.antt =====
-- A float64 for runs: whole cents.

use brain.Prelude.Int.{ℤ, pos, ◌+ℤ◌, ◌-ℤ◌, ltb_ℤ, leb_ℤ}
use brain.Loop.Budget.{Floats, Budget}

abbrev pub cents : Floats
cents = record {
  Float = ℤ;
  zero_float = pos 0;
  add_float = λ a b. a +ℤ b;
  sub_float = λ a b. a -ℤ b;
  lt_float = λ a b. ltb_ℤ a b;
  le_float = λ a b. leb_ℤ a b;
}

abbrev pub some_budget : Budget cents
some_budget = record {
  max_turns = pos 5;
  max_cost_usd = pos 300;
  max_tool_calls = pos 0;
  max_llm_calls = pos 10;
  max_duration = pos 0;
  used_turns = pos 2;
  used_cost_usd = pos 300;
  used_tool_calls = pos 7;
  used_llm_calls = pos 3;
  elapsed_time = pos 60;
}
