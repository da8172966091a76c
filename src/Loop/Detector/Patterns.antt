-- ===== src/Loop/Detector/Patterns.antt =====
-- What the counters of the detector mean: the lengths of the streaks at the end of the history.
use brain.Prelude.{
  inr, inl, arith, Bool-cases, ℕ, ◌+◌, String, ◌≡◌, refl, Bool, true, false, ◌&&◌, not, Option,
  none, some, List, [], ◌∷◌, if◌then◌else◌, ◌==◌, nat_eq, string_eq, concat,
}
use brain.Prelude.Int.{int_eq}
use brain.Loop.Detector.{
  EventType, tool_call, content, LoopEvent, RunLoopState, zero_state, Thresholds, observe_state,
}
use mathlib.Core.Bool.{false≢true}
use text.Mathlib.TextLemmas.{append-eq-nil_iff}

-- The text that tells two tool calls apart.
abbrev pub signature : LoopEvent → String
signature e = concat (concat e.tool_name "|") e.content_hash

-- A history has the newest event first. What the last event of a streak of tool calls was, if the
-- newest event that is a tool call or content is a tool call.
abbrev call_of : EventType → String → Option String → Option String
call_of tool_call sig rest = some sig
call_of content sig rest = none
call_of _ sig rest = rest

pub last_call : List LoopEvent → Option String
last_call [] = none
last_call (e ∷ h) = call_of e.type (signature e) (last_call h)

abbrev extend : Bool → ℕ → ℕ
extend true n = n + 1
extend false n = 1

abbrev is_call : String → Option String → Bool
is_call sig none = false
is_call sig (some last) = sig == last

-- How many tool calls in a row, back from the newest, have its signature; events that are no tool
-- call and no content are passed over, and content ends the streak.
abbrev repeats_of : EventType → Bool → ℕ → ℕ
repeats_of tool_call same n = extend same n
repeats_of content same n = 0
repeats_of _ same n = n

pub repeats : List LoopEvent → ℕ
repeats [] = 0
repeats (e ∷ h) = repeats_of e.type (is_call (signature e) (last_call h)) (repeats h)

-- How many contents in a row, back from the newest, with no tool call between.
abbrev thoughts_of : EventType → ℕ → ℕ
thoughts_of content n = n + 1
thoughts_of tool_call n = 0
thoughts_of _ n = n

pub thoughts : List LoopEvent → ℕ
thoughts [] = 0
thoughts (e ∷ h) = thoughts_of e.type (thoughts h)

abbrev is_progress : EventType → Bool
is_progress tool_call = true
is_progress content = true
is_progress _ = false

-- The newest hash that is not empty, of the tool calls and contents.
pub last_hash : List LoopEvent → String
last_hash [] = ""
last_hash (e ∷ h) =
    let rest = last_hash h in
    if is_progress e.type && not (e.content_hash == "") then e.content_hash else rest

-- How many of the tool calls and contents with a hash, back from the newest, have its hash.
pub same_hashes : List LoopEvent → ℕ
same_hashes [] = 0
same_hashes (e ∷ h) =
    if is_progress e.type && not (e.content_hash == "")
    then extend (e.content_hash == last_hash h) (same_hashes h)
    else same_hashes h

-- The state of a run after a history.
unfoldable pub state_after : Thresholds → List LoopEvent → RunLoopState
state_after t [] = zero_state
state_after t (e ∷ h) = (observe_state e.type t e.tool_name e.content_hash (state_after t h)).0

abbrev text_or_empty : Option String → String
text_or_empty none = ""
text_or_empty (some s) = s

pub record Counts (h : List LoopEvent) (s : RunLoopState) : Type 0 where
  pub repeat : s.repeat_count ≡ repeats h
  pub thought : s.thought_only_count ≡ thoughts h
  pub progress : s.no_progress_count ≡ same_hashes h
  pub last_sig : s.last_tool_signature ≡ text_or_empty (last_call h)
  pub last_progress : s.last_content_hash ≡ last_hash h

bar-ne-empty : ◌≡◌ {A = String} "|" "" → ⊥
bar-ne-empty p = false≢true ((string_eq.beq_iff "|" "").1 p)

signature-ne-empty : (e : LoopEvent) → (signature e == "") ≡ false
signature-ne-empty e = elim (Bool-cases (signature e == "")) [
  | inl p ↦
      let parts = append-eq-nil_iff.0 ((string_eq.beq_iff (signature e) "").0 p) in
      absurd (bar-ne-empty (append-eq-nil_iff.0 parts.0).1)
  | inr p ↦ p
]

step-Counts :
    (t : Thresholds) (e : LoopEvent) (h : List LoopEvent) (s : RunLoopState)
    → Counts h s
    → Counts (e ∷ h) (observe_state e.type t e.tool_name e.content_hash s).0
unfolding observe_state repeats thoughts same_hashes last_hash last_call
step-Counts t e h s c = record {
  repeat = ground (arith, signature-ne-empty e);
  thought = ground arith;
  progress = ground arith;
  last_sig = ground (arith, string_eq.beq_iff (signature e) s.last_tool_signature);
  last_progress = ground (arith, string_eq.beq_iff e.content_hash s.last_content_hash);
}

-- After any history of events of a run, with any thresholds, the three counters are the lengths of
-- the three streaks that end the history: of equal tool calls, of contents without a tool call, and
-- of equal hashes.
pub counters_are_streaks : (t : Thresholds) (h : List LoopEvent) → Counts h (state_after t h)
unfolding state_after repeats thoughts same_hashes last_hash last_call
counters_are_streaks t [] = record {
  repeat = refl;
  thought = refl;
  progress = refl;
  last_sig = refl;
  last_progress = refl;
}
counters_are_streaks t (e ∷ h) = step-Counts t e h (state_after t h) (counters_are_streaks t h)
