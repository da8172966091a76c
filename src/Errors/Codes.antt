-- ===== src/Errors/Codes.antt =====
-- errors/codes.go: the reserved error codes, one constant for each, with the source's text.
use brain.Prelude.{String}

abbrev pub sidecar_start_failed : String
sidecar_start_failed = "sidecar_start_failed"

abbrev pub sidecar_exit_nonzero : String
sidecar_exit_nonzero = "sidecar_exit_nonzero"

abbrev pub sidecar_hung : String
sidecar_hung = "sidecar_hung"

abbrev pub sidecar_stdout_eof : String
sidecar_stdout_eof = "sidecar_stdout_eof"

abbrev pub sidecar_stdin_broken_pipe : String
sidecar_stdin_broken_pipe = "sidecar_stdin_broken_pipe"

abbrev pub sidecar_crashed : String
sidecar_crashed = "sidecar_crashed"

abbrev pub sidecar_protocol_violation : String
sidecar_protocol_violation = "sidecar_protocol_violation"

abbrev pub sidecar_version_mismatch : String
sidecar_version_mismatch = "sidecar_version_mismatch"

abbrev pub tool_not_found : String
tool_not_found = "tool_not_found"

abbrev pub tool_execution_failed : String
tool_execution_failed = "tool_execution_failed"

abbrev pub tool_timeout : String
tool_timeout = "tool_timeout"

abbrev pub tool_input_invalid : String
tool_input_invalid = "tool_input_invalid"

abbrev pub tool_sandbox_denied : String
tool_sandbox_denied = "tool_sandbox_denied"

abbrev pub llm_rate_limited_shortterm : String
llm_rate_limited_shortterm = "llm_rate_limited_shortterm"

abbrev pub llm_quota_exhausted_daily : String
llm_quota_exhausted_daily = "llm_quota_exhausted_daily"

abbrev pub llm_upstream_5xx : String
llm_upstream_5xx = "llm_upstream_5xx"

abbrev pub llm_safety_refused : String
llm_safety_refused = "llm_safety_refused"

abbrev pub llm_context_overflow : String
llm_context_overflow = "llm_context_overflow"

abbrev pub llm_auth_failed : String
llm_auth_failed = "llm_auth_failed"

abbrev pub frame_too_large : String
frame_too_large = "frame_too_large"

abbrev pub frame_parse_error : String
frame_parse_error = "frame_parse_error"

abbrev pub frame_encoding_error : String
frame_encoding_error = "frame_encoding_error"

abbrev pub method_not_found : String
method_not_found = "method_not_found"

abbrev pub invalid_params : String
invalid_params = "invalid_params"

abbrev pub deadline_exceeded : String
deadline_exceeded = "deadline_exceeded"

abbrev pub stale_response : String
stale_response = "stale_response"

abbrev pub shutting_down : String
shutting_down = "shutting_down"

abbrev pub brain_overloaded : String
brain_overloaded = "brain_overloaded"

abbrev pub brain_task_failed : String
brain_task_failed = "brain_task_failed"

abbrev pub workflow_precondition : String
workflow_precondition = "workflow_precondition"

abbrev pub policy_gate_denied : String
policy_gate_denied = "policy_gate_denied"

abbrev pub budget_turns_exhausted : String
budget_turns_exhausted = "budget_turns_exhausted"

abbrev pub budget_cost_exhausted : String
budget_cost_exhausted = "budget_cost_exhausted"

abbrev pub budget_tool_calls_exhausted : String
budget_tool_calls_exhausted = "budget_tool_calls_exhausted"

abbrev pub budget_llm_calls_exhausted : String
budget_llm_calls_exhausted = "budget_llm_calls_exhausted"

abbrev pub budget_timeout_exhausted : String
budget_timeout_exhausted = "budget_timeout_exhausted"

abbrev pub agent_loop_detected : String
agent_loop_detected = "agent_loop_detected"

abbrev pub reflection_budget_exhausted : String
reflection_budget_exhausted = "reflection_budget_exhausted"

abbrev pub tool_sanitize_failed : String
tool_sanitize_failed = "tool_sanitize_failed"

abbrev pub license_not_found : String
license_not_found = "license_not_found"

abbrev pub license_invalid_signature : String
license_invalid_signature = "license_invalid_signature"

abbrev pub license_expired : String
license_expired = "license_expired"

abbrev pub license_not_yet_valid : String
license_not_yet_valid = "license_not_yet_valid"

abbrev pub license_brain_not_allowed : String
license_brain_not_allowed = "license_brain_not_allowed"

abbrev pub license_feature_not_allowed : String
license_feature_not_allowed = "license_feature_not_allowed"

abbrev pub license_schema_unsupported : String
license_schema_unsupported = "license_schema_unsupported"

abbrev pub record_not_found : String
record_not_found = "record_not_found"

abbrev pub db_deadlock : String
db_deadlock = "db_deadlock"

abbrev pub db_unique_violation : String
db_unique_violation = "db_unique_violation"

abbrev pub panicked : String
panicked = "panicked"

abbrev pub assertion_failed : String
assertion_failed = "assertion_failed"

abbrev pub invariant_violated : String
invariant_violated = "invariant_violated"

abbrev pub unknown : String
unknown = "unknown"
