-- ===== src/Errors/Decide/Tests.antt =====
-- Decisions on a timeout.
use brain.Prelude.{◌^◌, ◌≤◌, ◌≡◌, refl, true, false, none, some, [], arith}
use brain.Prelude.Int.{pos}
use brain.Errors.Codes
use brain.Errors.Class.{transient, row}
use brain.Errors.New.{BrainError, zero_fields}
use brain.Errors.Decide.{retry, other_policy, other_health, DecideContext, decide}
use brain.Errors.Decide.Retry.{decide-retry_iff}
use brain.Errors.Decide.Backoff.{retry-backoff_bounds}

abbrev timeout : BrainError
timeout = record {
  fields = zero_fields (row Codes.tool_timeout transient true) "the tool is slow" none;
  cause = [];
}

-- A transient error that is marked not retryable.
abbrev odd_timeout : BrainError
odd_timeout = record {
  fields = zero_fields (row Codes.tool_timeout transient false) "the tool is slow" none;
  cause = [];
}

abbrev first_attempt : DecideContext
first_attempt = record {
  fault_policy = other_policy "";
  attempt = pos 1;
  health = other_health "";
  now = 0;
  draw = 2 ^ 52;
}

timeout_retry : (decide (some timeout) first_attempt).action ≡ retry
timeout_retry = (decide-retry_iff timeout first_attempt).1 (refl, refl, omega arith)

decide-retry_iff_example : (decide (some timeout) first_attempt).action ≡ retry
decide-retry_iff_example = (decide-retry_iff timeout first_attempt).1 (refl, refl, omega arith)

retry-backoff_bounds_example : 800_000_000 ≤ (decide (some timeout) first_attempt).backoff_hint
retry-backoff_bounds_example =
    (retry-backoff_bounds timeout first_attempt (omega arith) timeout_retry).0
