-- ===== src/Errors/New/Tests.antt =====
-- Errors made by the constructors over the default registry.
use brain.Prelude.{String, ◌≡◌, true, false, none, some, List, [], ◌∷◌}
use brain.Prelude.Int.{pos}
use brain.Errors.Codes
use brain.Errors.Registry.{default_registry}
use brain.Errors.New.{BrainError, ErrorOption, with_message, with_attempt, GoError, std_error, new}
use brain.Errors.New.Classified.{decide-new_no_violation}
use brain.Errors.Decide.{other_policy, healthy, DecideContext, decide}

abbrev no_fingerprint : BrainError → String
no_fingerprint e = ""

abbrev slow_tool : List ErrorOption
slow_tool = with_message "the tool is slow" ∷ with_attempt (pos 2) ∷ []

abbrev end_of_file : GoError
end_of_file = std_error (record {
  text = "EOF";
  is_canceled = false;
  is_deadline_exceeded = false;
  is_eof = true;
  is_epipe = false;
  as_op_error = false;
  as_net_error = none;
})

abbrev second_attempt : DecideContext
second_attempt = record {
  fault_policy = other_policy "";
  attempt = pos 2;
  health = healthy;
  now = 0;
  draw = 0;
}

decide-new_no_violation_example :
    (decide
      (some (new default_registry no_fingerprint 7 Codes.tool_timeout slow_tool))
      second_attempt).violation
    ≡ false
decide-new_no_violation_example =
    (decide-new_no_violation no_fingerprint 7 (some end_of_file) Codes.tool_timeout slow_tool
      second_attempt (tt, (tt, tt))).0
