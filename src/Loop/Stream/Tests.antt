-- ===== src/Loop/Stream/Tests.antt =====
-- A response with text around a tool call, streamed by runes.
use mathlib.Core.Bool.{false≢true}
use brain.Loop.Tests.{cents}
use brain.Loop.Stream.{
  Encoder, no_usage, StreamEvent, message_start, message_delta, message_end, Drained, tool_block,
  text_block, lower_blocks, lower_to_stream,
}
use brain.Loop.Stream.Lowered.{AreNamed, drain_lowered}
use brain.Prelude.{◌≡◌, refl, some, List, [], ◌∷◌, ◌++◌, if◌then◌else◌, nat_eq, string_eq, ◌==◌}
use brain.Prelude.Int.{pos, int_eq}

abbrev a_response : Drained cents
a_response = record {
  id = "msg_1";
  model = "m";
  stop_reason = "tool_use";
  content =
      text_block cents "look"
      ∷ tool_block cents "call_1" "search" "{}"
      ∷ text_block cents "ing"
      ∷ tool_block cents "call_2" "read" ""
      ∷ [];
  usage = record (no_usage cents) { output_tokens = pos 5 };
}

-- Raw JSON that is compact and has no bytes to escape stays as it is.
abbrev plain : Encoder
plain s = some (if s == "" then "null" else s)

a_response-AreNamed : AreNamed cents plain a_response.content
a_response-AreNamed =
    ((λ h. absurd (false≢true h)), ((λ h. refl), ((λ h. absurd (false≢true h)), ((λ h. refl), tt))))

abbrev its_events : List (StreamEvent cents)
unfolding lower_blocks
its_events =
    message_start (some ("msg_1", "m")) ∷ lower_blocks cents plain (pos 1) a_response.content
    ++ message_delta (some ("tool_use", a_response.usage))
      ∷ message_end (some a_response.usage)
      ∷ []

its_events_lowered : lower_to_stream cents plain a_response (pos 1) ≡ some its_events
unfolding lower_to_stream its_events
its_events_lowered = refl

drain_lowered_example :
    (drain_lowered cents plain a_response
      (pos 1)
      its_events
      a_response-AreNamed
      its_events_lowered).0.content
    ≡ "looking"
drain_lowered_example =
    (drain_lowered cents plain a_response (pos 1) its_events a_response-AreNamed
      its_events_lowered).2
