-- ===== src/Loop/Detector/Tests.antt =====
-- Two runs that one detector watches.
use brain.Prelude.{String, ◌≡◌, List, [], ◌∷◌, nat_eq, string_eq}
use brain.Prelude.Int.{int_eq}
use brain.Loop.Detector.{
  tool_call, content, LoopEvent, Thresholds, new_mem_loop_detector, observe_state,
}
use brain.Loop.Detector.Patterns.{state_after, Counts, counters_are_streaks}
use brain.Loop.Detector.Verdicts.{trips, is_loop_iff_streak}

abbrev list_files : LoopEvent
list_files = record { type = tool_call; tool_name = "ls"; content_hash = "a1"; trace_id = "" }

abbrev thought : LoopEvent
thought = record { type = content; tool_name = ""; content_hash = "b2"; trace_id = "" }

-- Newest first.
abbrev two_runs : List (String × LoopEvent)
two_runs =
    ("left", list_files) ∷ ("right", thought) ∷ ("left", list_files) ∷ ("left", list_files) ∷ []

abbrev thresholds : Thresholds
thresholds = new_mem_loop_detector.thresholds

counters_are_streaks_example :
    Counts
      (list_files ∷ thought ∷ list_files ∷ [])
      (state_after thresholds (list_files ∷ thought ∷ list_files ∷ []))
counters_are_streaks_example =
    counters_are_streaks thresholds (list_files ∷ thought ∷ list_files ∷ [])

is_loop_iff_streak_example :
    (observe_state tool_call thresholds "ls" "a1"
      (state_after thresholds (list_files ∷ list_files ∷ []))).1.is_loop
    ≡ trips tool_call thresholds list_files (list_files ∷ list_files ∷ [])
is_loop_iff_streak_example = is_loop_iff_streak thresholds list_files (list_files ∷ list_files ∷ [])
