-- ===== src/Errors/Class.antt =====
-- errors/class.go and errors/class_map.go: the six classes and the reserved catalogue.
use brain.Prelude.{String, Bool, true, false, List, [], ◌∷◌}
use brain.Errors.Codes

-- `type ErrorClass string`: the six constants, and any other text.
pub data ErrorClass : Type 0 where
  transient permanent user_fault quota_exceeded safety_refused internal_bug : ErrorClass
  other_class : String → ErrorClass

pub record CodeMetadata : Type 0 where
  pub code : String
  pub class : ErrorClass
  pub retryable : Bool

-- One row of `reservedMetadata`.
abbrev pub row : String → ErrorClass → Bool → CodeMetadata
row c k r = record { code = c; class = k; retryable = r }

abbrev pub reserved_metadata : List CodeMetadata
reserved_metadata =
    row Codes.sidecar_start_failed internal_bug false
    ∷ row Codes.sidecar_exit_nonzero permanent false
    ∷ row Codes.sidecar_hung transient true
    ∷ row Codes.sidecar_stdout_eof transient true
    ∷ row Codes.sidecar_stdin_broken_pipe transient true
    ∷ row Codes.sidecar_crashed internal_bug false
    ∷ row Codes.sidecar_protocol_violation internal_bug false
    ∷ row Codes.sidecar_version_mismatch permanent false
    ∷ row Codes.tool_not_found permanent false
    ∷ row Codes.tool_execution_failed permanent false
    ∷ row Codes.tool_timeout transient true
    ∷ row Codes.tool_input_invalid user_fault false
    ∷ row Codes.tool_sandbox_denied safety_refused false
    ∷ row Codes.llm_rate_limited_shortterm transient true
    ∷ row Codes.llm_quota_exhausted_daily quota_exceeded false
    ∷ row Codes.llm_upstream_5xx transient true
    ∷ row Codes.llm_safety_refused safety_refused false
    ∷ row Codes.llm_context_overflow permanent false
    ∷ row Codes.llm_auth_failed permanent false
    ∷ row Codes.frame_too_large permanent false
    ∷ row Codes.frame_parse_error permanent false
    ∷ row Codes.frame_encoding_error internal_bug false
    ∷ row Codes.method_not_found permanent false
    ∷ row Codes.invalid_params user_fault false
    ∷ row Codes.deadline_exceeded transient true
    ∷ row Codes.stale_response internal_bug false
    ∷ row Codes.shutting_down transient true
    ∷ row Codes.brain_overloaded transient true
    ∷ row Codes.brain_task_failed permanent false
    ∷ row Codes.workflow_precondition user_fault false
    ∷ row Codes.policy_gate_denied safety_refused false
    ∷ row Codes.record_not_found user_fault false
    ∷ row Codes.db_deadlock transient true
    ∷ row Codes.db_unique_violation user_fault false
    ∷ row Codes.panicked internal_bug false
    ∷ row Codes.assertion_failed internal_bug false
    ∷ row Codes.invariant_violated internal_bug false
    ∷ row Codes.unknown internal_bug false
    ∷ row Codes.budget_turns_exhausted permanent false
    ∷ row Codes.budget_cost_exhausted permanent false
    ∷ row Codes.budget_tool_calls_exhausted permanent false
    ∷ row Codes.budget_llm_calls_exhausted permanent false
    ∷ row Codes.budget_timeout_exhausted permanent false
    ∷ row Codes.agent_loop_detected permanent false
    ∷ row Codes.reflection_budget_exhausted permanent false
    ∷ row Codes.tool_sanitize_failed permanent false
    ∷ row Codes.license_not_found permanent false
    ∷ row Codes.license_invalid_signature permanent false
    ∷ row Codes.license_expired permanent false
    ∷ row Codes.license_not_yet_valid permanent false
    ∷ row Codes.license_brain_not_allowed permanent false
    ∷ row Codes.license_feature_not_allowed permanent false
    ∷ row Codes.license_schema_unsupported permanent false
    ∷ []
