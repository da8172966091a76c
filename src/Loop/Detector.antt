-- ===== src/Loop/Detector.antt =====
-- loop/mem_loop_detector.go and loop/loop_detector.go: the loop detector and its state for each run.
-- The mutex is left out: each call runs as a whole under it. The counters start at 0 and only ever
-- count calls, so they are numbers without a bound; a confidence is in hundredths. `ctx.Err()` is
-- an argument, and a nil detector or run is not modelled.
pub mod Patterns
pub mod Verdicts
mod Tests
use brain.Prelude.{
  ℕ, ◌+◌, String, Bool, true, false, ◌&&◌, not, Option, none, some, List, [], if◌then◌else◌, ◌==◌,
  nat_eq, string_eq, concat,
}
use brain.Prelude.Int.{ℤ, pos, ltb_ℤ, leb_ℤ, int_eq}
use brain.Prelude.Assoc
use brain.Errors.Codes

-- `LoopEvent.Type` is a text: three values, and any other.
pub data EventType : Type 0 where
  tool_call content llm_call : EventType
  other_event : String → EventType

pub record LoopEvent : Type 0 where
  pub type : EventType
  pub tool_name : String
  pub content_hash : String
  pub trace_id : String

pub record LoopVerdict : Type 0 where
  pub is_loop : Bool
  pub pattern : String
  pub confidence : ℕ

-- `LoopVerdict{}`
abbrev pub no_verdict : LoopVerdict
no_verdict = record { is_loop = false; pattern = ""; confidence = 0 }

pub record RunLoopState : Type 0 where
  pub last_tool_signature : String
  pub repeat_count : ℕ
  pub last_content_hash : String
  pub no_progress_count : ℕ
  pub thought_only_count : ℕ

-- `&runLoopState{}`
abbrev pub zero_state : RunLoopState
zero_state = record {
  last_tool_signature = "";
  repeat_count = 0;
  last_content_hash = "";
  no_progress_count = 0;
  thought_only_count = 0;
}

pub record Thresholds : Type 0 where
  pub repeated_tool_call : ℤ
  pub no_progress_turn : ℤ
  pub thought_only_turn : ℤ

pub record MemLoopDetector : Type 0 where
  pub thresholds : Thresholds
  pub states : List (String × RunLoopState)

-- `NewMemLoopDetector`
unfoldable pub new_mem_loop_detector : MemLoopDetector
new_mem_loop_detector = record {
  thresholds = record {
    repeated_tool_call = pos 3;
    no_progress_turn = pos 5;
    thought_only_turn = pos 3;
  };
  states = [];
}

-- `threshold > 0 && count >= threshold`
abbrev pub reached : ℤ → ℕ → Bool
reached threshold count = ltb_ℤ (pos 0) threshold && leb_ℤ threshold (pos count)

-- `bumpNoProgress`
abbrev bump_no_progress : RunLoopState → String → RunLoopState
bump_no_progress s hash =
    if hash == ""
    then s
    else if hash == s.last_content_hash
    then record s { no_progress_count = s.no_progress_count + 1 }
    else record s { last_content_hash = hash; no_progress_count = 1 }

abbrev no_progress_verdict : Thresholds → RunLoopState → LoopVerdict
no_progress_verdict t s =
    if reached t.no_progress_turn s.no_progress_count
    then record { is_loop = true; pattern = "no_progress_turn"; confidence = 90 }
    else no_verdict

abbrev tool_call_state : RunLoopState → String → String → RunLoopState
tool_call_state s sig hash =
    bump_no_progress
      (if sig == s.last_tool_signature && not (sig == "")
        then record s { repeat_count = s.repeat_count + 1; thought_only_count = 0 }
        else record s { last_tool_signature = sig; repeat_count = 1; thought_only_count = 0 })
      hash

abbrev content_state : RunLoopState → String → RunLoopState
content_state s hash =
    bump_no_progress
      (record s {
        thought_only_count = s.thought_only_count + 1;
        last_tool_signature = "";
        repeat_count = 0;
      })
      hash

-- The switch of `Observe` on the event's type, over the state of the run.
pub observe_state :
    EventType → Thresholds → String → String → RunLoopState → RunLoopState × LoopVerdict
observe_state tool_call t name hash s =
    let s' = tool_call_state s (concat (concat name "|") hash) hash in
    (
      s',
      if reached t.repeated_tool_call s'.repeat_count
          then record { is_loop = true; pattern = "repeated_tool_call"; confidence = 100 }
          else no_progress_verdict t s',
    )
observe_state content t name hash s =
    let s' = content_state s hash in
    (
      s',
      if reached t.thought_only_turn s'.thought_only_count
          then record { is_loop = true; pattern = "thought_explosion"; confidence = 85 }
          else no_progress_verdict t s',
    )
observe_state _ t name hash s = (s, no_verdict)

abbrev state_or_zero : Option RunLoopState → RunLoopState
state_or_zero none = zero_state
state_or_zero (some s) = s

-- The state that the map holds for a run, or the fresh one that `Observe` puts there.
pub run_state : MemLoopDetector → String → RunLoopState
run_state d run_id = state_or_zero (Assoc.lookup run_id d.states)

pub data Observed : Type 0 where
  verdict : LoopVerdict → Observed
  ctx_error : Observed

-- `Observe`
pub observe : MemLoopDetector → Bool → String → LoopEvent → MemLoopDetector × Observed
unfolding observe_state run_state
observe d ctx_err run_id e =
    if ctx_err
    then (d, ctx_error)
    else let (s, v) =
        observe_state e.type d.thresholds e.tool_name e.content_hash (run_state d run_id) in
      (record d { states = Assoc.insert run_id s d.states }, verdict v)

-- `Forget`
pub forget : MemLoopDetector → String → MemLoopDetector
forget d run_id = record d { states = Assoc.delete run_id d.states }
