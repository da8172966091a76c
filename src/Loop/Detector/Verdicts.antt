-- ===== src/Loop/Detector/Verdicts.antt =====
-- Runs do not disturb one another, and when the detector reports a loop.
use brain.Prelude.{
  true, ℕ, String, ◌≡◌, refl, ◌∙◌, Bool, false, ◌||◌, List, [], ◌∷◌, arith, if◌then◌else◌, ◌==◌,
  nat_eq, string_eq,
}
use brain.Prelude.Int.{int_eq}
use brain.Prelude.Assoc.{lookup-insert, lookup-delete}
use brain.Loop.Detector.{
  no_verdict, true, ℕ, EventType, tool_call, content, LoopEvent, RunLoopState, zero_state,
  Thresholds, MemLoopDetector, reached, observe_state, run_state, observe, forget,
}
use brain.Loop.Detector.Patterns.{
  repeats, thoughts, same_hashes, state_after, Counts, counters_are_streaks,
}

-- The events of many runs, newest first, each with its run; none was under a context that had ended.
pub observe_all : MemLoopDetector → List (String × LoopEvent) → MemLoopDetector
observe_all d [] = d
observe_all d ((run_id, e) ∷ h) = (observe (observe_all d h) false run_id e).0

-- The events of one run.
pub history : String → List (String × LoopEvent) → List LoopEvent
history run_id [] = []
history run_id ((r, e) ∷ h) = let rest = history run_id h in if r == run_id then e ∷ rest else rest

observe-run_state :
    (d : MemLoopDetector) (r q : String) (e : LoopEvent)
    → ((observe d false r e).0.thresholds ≡ d.thresholds)
      × (run_state (observe d false r e).0 q ≡ (
          if r == q
          then (observe_state e.type d.thresholds e.tool_name e.content_hash (run_state d r)).0
          else run_state d q))
unfolding observe run_state
observe-run_state d r q e = (refl, simp lookup-insert (ground arith))

observe_all_kept :
    (d : MemLoopDetector) (run_id : String) (h : List (String × LoopEvent))
    → run_state d run_id ≡ zero_state
    → ((observe_all d h).thresholds ≡ d.thresholds)
      × (run_state (observe_all d h) run_id ≡ state_after d.thresholds (history run_id h))
unfolding observe_all history state_after
observe_all_kept d run_id [] z = (refl, z)
observe_all_kept d run_id ((r, e) ∷ h) z =
    let (kt, ks) = observe_all_kept d run_id h z in
    let (st, ss) = observe-run_state (observe_all d h) r run_id e in
    (st ∙ kt, ss ∙ ground (arith, string_eq.beq_iff r run_id))

-- In a detector that has seen nothing of a run, the state of that run after any events of any runs,
-- interleaved in any order, is what its own events alone lead to.
runs_are_isolated :
    (d : MemLoopDetector) (run_id : String) (h : List (String × LoopEvent))
    → run_state d run_id ≡ zero_state
    → run_state (observe_all d h) run_id ≡ state_after d.thresholds (history run_id h)
runs_are_isolated d run_id h z = (observe_all_kept d run_id h z).1

-- Forgetting a run gives it the zero state, and leaves every other run as it was.
pub forget-run_state :
    (d : MemLoopDetector) (r q : String)
    → run_state (forget d r) q ≡ (if r == q then zero_state else run_state d q)
unfolding forget run_state
forget-run_state d r q = simp lookup-delete (ground arith)

-- The streak that the verdict on an event looks at, besides that of the hashes.
abbrev pub trips : EventType → Thresholds → LoopEvent → List LoopEvent → Bool
trips tool_call t e h =
    reached t.repeated_tool_call (repeats (e ∷ h))
    || reached t.no_progress_turn (same_hashes (e ∷ h))
trips content t e h =
    reached t.thought_only_turn (thoughts (e ∷ h))
    || reached t.no_progress_turn (same_hashes (e ∷ h))
trips _ t e h = false

-- The verdict on an event, by the counters of the state that it leads to.
abbrev trips_at : EventType → Thresholds → RunLoopState → Bool
trips_at tool_call t s =
    reached t.repeated_tool_call s.repeat_count || reached t.no_progress_turn s.no_progress_count
trips_at content t s =
    reached t.thought_only_turn s.thought_only_count
    || reached t.no_progress_turn s.no_progress_count
trips_at _ t s = false

is_loop_ladder :
    (a b : Bool) (p q : String) (m n : ℕ)
    → (if a
        then record { is_loop = true; pattern = p; confidence = m }
        else if b
        then record { is_loop = true; pattern = q; confidence = n }
        else no_verdict).is_loop
      ≡ (a || b)
is_loop_ladder true b p q m n = refl
is_loop_ladder false true p q m n = refl
is_loop_ladder false false p q m n = refl

is_loop-eq-trips_at :
    (k : EventType) (t : Thresholds) (name hash : String) (s : RunLoopState)
    → (observe_state k t name hash s).1.is_loop ≡ trips_at k t (observe_state k t name hash s).0
unfolding observe_state
is_loop-eq-trips_at tool_call t name hash s =
    let s' = (observe_state tool_call t name hash s).0 in
    is_loop_ladder (reached t.repeated_tool_call s'.repeat_count)
      (reached t.no_progress_turn s'.no_progress_count) "repeated_tool_call" "no_progress_turn" 100
      90
is_loop-eq-trips_at content t name hash s =
    let s' = (observe_state content t name hash s).0 in
    is_loop_ladder (reached t.thought_only_turn s'.thought_only_count)
      (reached t.no_progress_turn s'.no_progress_count) "thought_explosion" "no_progress_turn" 85 90
is_loop-eq-trips_at _ t name hash s = refl

trips_at-Counts :
    (k : EventType) (t : Thresholds) (e : LoopEvent) (h : List LoopEvent) (s : RunLoopState)
    → Counts (e ∷ h) s
    → trips_at k t s ≡ trips k t e h
trips_at-Counts tool_call t e h s c = rw (c.repeat, c.progress)
trips_at-Counts content t e h s c = rw (c.thought, c.progress)
trips_at-Counts _ t e h s c = refl

-- After any history of a run, the verdict on the next event is a loop exactly if the event is a tool
-- call and the streak of equal tool calls that it ends has reached its threshold, or it is content
-- and so has the streak of contents, or it is either and so has the streak of equal hashes, each
-- threshold only where it is above 0. An event of an error is never a loop.
pub is_loop_iff_streak :
    (t : Thresholds) (e : LoopEvent) (h : List LoopEvent)
    → (observe_state e.type t e.tool_name e.content_hash (state_after t h)).1.is_loop
      ≡ trips e.type t e h
unfolding state_after
is_loop_iff_streak t e h =
    is_loop-eq-trips_at e.type t e.tool_name e.content_hash (state_after t h)
    ∙ trips_at-Counts e.type t e h _ (counters_are_streaks t (e ∷ h))
