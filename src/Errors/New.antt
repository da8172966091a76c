-- ===== src/Errors/New.antt =====
-- errors/error.go, errors/new.go and errors/go_error_map.go: the error value, its constructors and
-- their options. `Cause` is a chain, kept as the list of the causes' fields. The clock, the SHA-256
-- fingerprint and the standard library's tests on an error are arguments. `DispatchError`, which
-- hands the finished error to observers and changes nothing, and a nil option, which is skipped, are
-- left out.
pub mod Classified
mod Tests
use brain.Prelude.{
  ℕ, String, Bool, false, Option, none, some, List, [], ◌∷◌, ◌==◌, if◌then◌else◌, string_eq, concat,
  ◌||◌,
}
use brain.Prelude.Int.{ℤ, pos, ltb_ℤ}
use brain.Prelude.Assoc
use brain.Errors.Codes
use brain.Errors.Class.{ErrorClass, internal_bug, other_class, CodeMetadata}
use brain.Errors.Registry.{ErrorRegistry, lookup, is_known_class}

pub record InternalDetail : Type 0 where
  pub stack : String
  pub raw_stderr : String
  pub debug_flags : List (String × String)

-- The fields of `BrainError` but for `Cause`; a time is in nanoseconds.
pub record ErrorFields : Type 0 where
  pub class : ErrorClass
  pub error_code : String
  pub retryable : Bool
  pub fingerprint : String
  pub trace_id : String
  pub span_id : String
  pub message : String
  pub hint : String
  pub internal_only : Option InternalDetail
  pub brain_id : String
  pub sidecar_pid : ℤ
  pub occurred_at : ℕ
  pub attempt : ℤ
  pub suggestions : List String

pub record BrainError : Type 0 where
  pub fields : ErrorFields
  pub open fields use *
  pub cause : List ErrorFields

-- `&BrainError{ErrorCode, Class, Retryable, Message, InternalOnly}`, all else zero.
abbrev pub zero_fields : CodeMetadata → String → Option InternalDetail → ErrorFields
zero_fields md m d = record {
  class = md.class;
  error_code = md.code;
  retryable = md.retryable;
  fingerprint = "";
  trace_id = "";
  span_id = "";
  message = m;
  hint = "";
  internal_only = d;
  brain_id = "";
  sidecar_pid = pos 0;
  occurred_at = 0;
  attempt = pos 0;
  suggestions = [];
}

-- What a failed map read gives.
abbrev pub zero_metadata : CodeMetadata
zero_metadata = record { code = ""; class = other_class ""; retryable = false }

abbrev pub metadata_or_zero : Option CodeMetadata → CodeMetadata
metadata_or_zero none = zero_metadata
metadata_or_zero (some md) = md

shell_fields : ErrorRegistry → String → Option CodeMetadata → ErrorFields
shell_fields r code none =
    zero_fields (metadata_or_zero (lookup r Codes.unknown))
      (concat "unregistered error code: " code)
      (some (record {
        stack = "";
        raw_stderr = "";
        debug_flags = ("requested_code", code) ∷ ("registry_violation", "true") ∷ [];
      }))
shell_fields r code (some md) = zero_fields md "" none

-- `newShell`
pub new_shell : ErrorRegistry → String → BrainError
unfolding shell_fields
new_shell r code = record { fields = shell_fields r code (lookup r code); cause = [] }

-- The functional options, one constructor for each `With…`.
pub data ErrorOption : Type 0 where
  with_message with_hint with_brain_id with_trace_id with_span_id : String → ErrorOption
  with_stack with_raw_stderr : String → ErrorOption
  with_sidecar_pid with_attempt : ℤ → ErrorOption
  with_suggestions : List String → ErrorOption
  with_retryable : Bool → ErrorOption
  with_class : ErrorClass → ErrorOption
  with_occurred_at : ℕ → ErrorOption
  with_cause : Option BrainError → ErrorOption
  with_debug_flag : String → String → ErrorOption
  with_debug_flags : List (String × String) → ErrorOption

-- `ensureInternal`
abbrev pub ensure_internal : Option InternalDetail → InternalDetail
ensure_internal none = record { stack = ""; raw_stderr = ""; debug_flags = [] }
ensure_internal (some d) = d

abbrev set_fields : BrainError → ErrorFields → BrainError
set_fields e f = record { fields = f; cause = e.cause }

abbrev set_internal : BrainError → InternalDetail → BrainError
set_internal e d = set_fields e (record e.fields { internal_only = some d })

-- `for k, v := range flags { d.DebugFlags[k] = v }`
insert_all : List (String × String) → List (String × String) → List (String × String)
insert_all [] m = m
insert_all ((k, v) ∷ flags) m = insert_all flags (Assoc.insert k v m)

-- What each option does to the error.
pub apply_option : ErrorOption → BrainError → BrainError
unfolding insert_all
apply_option (with_message m) e =
    if m == "" then e else set_fields e (record e.fields { message = m })
apply_option (with_hint h) e = set_fields e (record e.fields { hint = h })
apply_option (with_brain_id i) e = set_fields e (record e.fields { brain_id = i })
apply_option (with_trace_id i) e = set_fields e (record e.fields { trace_id = i })
apply_option (with_span_id i) e = set_fields e (record e.fields { span_id = i })
apply_option (with_stack s) e =
    if s == ""
    then e
    else let d = ensure_internal e.internal_only in set_internal e (record d { stack = s })
apply_option (with_raw_stderr s) e =
    if s == ""
    then e
    else let d = ensure_internal e.internal_only in set_internal e (record d { raw_stderr = s })
apply_option (with_sidecar_pid p) e = set_fields e (record e.fields { sidecar_pid = p })
apply_option (with_attempt n) e =
    if ltb_ℤ (pos 0) n then set_fields e (record e.fields { attempt = n }) else e
apply_option (with_suggestions []) e = e
apply_option (with_suggestions (s ∷ ss)) e = set_fields e (record e.fields { suggestions = s ∷ ss })
apply_option (with_retryable b) e = set_fields e (record e.fields { retryable = b })
apply_option (with_class c) e =
    if is_known_class c then set_fields e (record e.fields { class = c }) else e
apply_option (with_occurred_at t) e = set_fields e (record e.fields { occurred_at = t })
apply_option (with_cause none) e = e
apply_option (with_cause (some c)) e = record { fields = e.fields; cause = c.fields ∷ c.cause }
apply_option (with_debug_flag k v) e =
    if k == ""
    then e
    else let d = ensure_internal e.internal_only in
      set_internal e (record d { debug_flags = Assoc.insert k v d.debug_flags })
apply_option (with_debug_flags []) e = e
apply_option (with_debug_flags (f ∷ fs)) e =
    let d = ensure_internal e.internal_only in
    set_internal e (record d { debug_flags = insert_all (f ∷ fs) d.debug_flags })

-- `for _, opt := range opts { opt(be) }`
pub apply_options : List ErrorOption → BrainError → BrainError
apply_options [] e = e
apply_options (o ∷ os) e = apply_options os (apply_option o e)

-- What `errors.Is` and `errors.As` tell of an error that holds no `BrainError`.
pub record StdError : Type 0 where
  pub text : String
  pub is_canceled : Bool
  pub is_deadline_exceeded : Bool
  pub is_eof : Bool
  pub is_epipe : Bool
  pub as_op_error : Bool
  pub as_net_error : Option (Bool × Bool)  -- `Timeout()`, `isTemporary`

pub data GoError : Type 0 where
  brain_error : BrainError → GoError
  std_error : StdError → GoError

net_code : Option (Bool × Bool) → Option String
net_code none = none
net_code (some (timeout, temporary)) =
    if timeout || temporary then some Codes.deadline_exceeded else none

-- `FromGoError`, of an error that is not nil.
pub from_go_error : StdError → Option String
unfolding net_code
from_go_error e =
    if e.is_canceled
    then none
    else if e.is_deadline_exceeded
    then some Codes.deadline_exceeded
    else if e.is_eof
    then some Codes.sidecar_stdout_eof
    else if e.is_epipe
    then some Codes.sidecar_stdin_broken_pipe
    else if e.as_op_error
    then some Codes.deadline_exceeded
    else net_code e.as_net_error

abbrev code_or_unknown : Option String → String
code_or_unknown none = Codes.unknown
code_or_unknown (some c) = c

cause_fields : String → String → Option CodeMetadata → ErrorFields
cause_fields code text none =
    zero_fields (record { code = code; class = internal_bug; retryable = false }) text none
cause_fields code text (some md) =
    zero_fields (record { code = code; class = md.class; retryable = md.retryable }) text none

-- The registry, the fingerprint and the clock of one call.
module _ (r : ErrorRegistry) (fingerprint : BrainError → String) (now : ℕ) where
  -- `be.Fingerprint = Fingerprint(be)`
  abbrev finish : BrainError → BrainError
  finish e = set_fields e (record e.fields { fingerprint = fingerprint e })

  abbrev stamp : BrainError → BrainError
  stamp e = set_fields e (record e.fields { occurred_at = now })

  -- `causeFrom`
  pub cause_from : GoError → BrainError
  unfolding from_go_error cause_fields
  cause_from (brain_error e) = e
  cause_from (std_error e) =
      let code = code_or_unknown (from_go_error e) in
      finish (stamp (record { fields = cause_fields code e.text (lookup r code); cause = [] }))

  -- `New`
  pub new : String → List ErrorOption → BrainError
  unfolding apply_options
  new code opts = finish (apply_options opts (stamp (new_shell r code)))

  -- `be.Cause = causeFrom(err)` of `Wrap`
  abbrev with_cause_from : Option GoError → BrainError → BrainError
  with_cause_from none be = be
  with_cause_from (some err) be =
      let c = cause_from err in record { fields = be.fields; cause = c.fields ∷ c.cause }

  -- `Wrap`
  pub wrap : Option GoError → String → List ErrorOption → BrainError
  unfolding apply_options cause_from
  wrap err code opts = finish (apply_options opts (stamp (with_cause_from err (new_shell r code))))
