-- ===== src/Loop/Stream.antt =====
-- loop/turn_executor.go: the draining of a model's stream, with the consumer of loop/mem_stream.go
-- for the turn at hand, and the stream that llm/mock_provider.go makes of a response. An event's
-- payload is what `json.Unmarshal` makes of it, `none` where it fails; how `json.Marshal` writes raw
-- JSON is an argument of the lowering. The times are left out, and
-- the message deltas that a consumer keeps as raw JSON are counted only.
pub mod Lowered
mod Tests
use brain.Loop.Chat.{ContentBlock}
use brain.Loop.Budget.{Floats}
use brain.Loop.Runner.{stop}
use brain.Prelude.{
  ℕ, zero, suc, ◌+◌, String, Bool, true, false, ◌&&◌, ◌||◌, not, Option, none, some, List, [], ◌∷◌,
  ◌++◌, if◌then◌else◌, nat_eq, string_eq, ◌==◌, is_some, concat, is_nil,
}
use brain.Prelude.Int.{ℤ, pos, pos_part, ltb_ℤ, int_eq}
use Prim.Native.String.{◌∷◌ as ◌∷ₛ◌, [] as []ₛ}

-- `string_length` in runes.
unfoldable pub rune_count : String → ℕ
rune_count []ₛ = 0
rune_count (c ∷ₛ s) = suc (rune_count s)

unfoldable pub take_runes : ℕ → String → String
take_runes zero s = ""
take_runes (suc n) []ₛ = ""
take_runes (suc n) (c ∷ₛ s) = c ∷ₛ take_runes n s

unfoldable pub drop_runes : ℕ → String → String
drop_runes zero s = s
drop_runes (suc n) []ₛ = ""
drop_runes (suc n) (c ∷ₛ s) = drop_runes n s

-- The loop of `splitRunes`, with one round for each rune.
unfoldable pub split_rounds : ℕ → ℕ → String → List String
unfolding take_runes drop_runes
split_rounds zero size s = []
split_rounds (suc fuel) size s =
    let rest = split_rounds fuel size (drop_runes size s) in
    if s == "" then [] else take_runes size s ∷ rest

unfoldable pub split_runes : String → ℤ → List String
unfolding split_rounds rune_count
split_runes s chunk_size =
    split_rounds (rune_count s) (if ltb_ℤ (pos 0) chunk_size then pos_part chunk_size else 1) s

-- What `json.Marshal` makes of raw JSON, where "" stands for nil: `none` is its error.
abbrev pub Encoder : Type 0
Encoder = String → Option String

abbrev pub encoded : Encoder → String → String
encoded enc s = elim (enc s) [ none ↦ "" | some t ↦ t ]

-- Whether the inputs of all tool calls can be encoded.
unfoldable pub all_encoded : Encoder → List ContentBlock → Bool
all_encoded enc [] = true
all_encoded enc (block ∷ blocks) =
    (block.type == "text" || not (block.type == "tool_use") || is_some (enc block.input))
    && all_encoded enc blocks

module _ (f : Floats) where
  open f use {Float, zero_float}

  -- `llm.Usage`
  pub record Usage : Type 0 where
    pub input_tokens : ℤ
    pub output_tokens : ℤ
    pub cache_read_tokens : ℤ
    pub cache_creation_tokens : ℤ
    pub cost_usd : Float

  abbrev pub no_usage : Usage
  no_usage = record {
    input_tokens = pos 0;
    output_tokens = pos 0;
    cache_read_tokens = pos 0;
    cache_creation_tokens = pos 0;
    cost_usd = zero_float;
  }

  pub data StreamEvent : Type 0 where
    message_start : Option (String × String) → StreamEvent  -- id, model
    content_delta : Option String → StreamEvent
    tool_call_delta : Option (String × String × String) → StreamEvent  -- id, name, input
    message_delta : Option (String × Usage) → StreamEvent  -- stop reason
    message_end : Option Usage → StreamEvent
    other_event : StreamEvent

  -- A `ChatResponse` with all its fields.
  pub record Drained : Type 0 where
    pub id : String
    pub model : String
    pub stop_reason : String
    pub content : List ContentBlock
    pub usage : Usage

  pub record MemToolCallFrame : Type 0 where
    pub tool_name : String
    pub args_partial : String

  pub record MemStreamBuffer : Type 0 where
    pub content : String
    pub tool_calls : List MemToolCallFrame
    pub final_usage : Usage
    pub message_starts : ℕ
    pub content_deltas : ℕ
    pub tool_call_deltas : ℕ
    pub message_deltas : ℕ
    pub message_ends : ℕ
    pub finished : Bool

  abbrev pub new_buffer : MemStreamBuffer
  new_buffer = record {
    content = "";
    tool_calls = [];
    final_usage = no_usage;
    message_starts = 0;
    content_deltas = 0;
    tool_call_deltas = 0;
    message_deltas = 0;
    message_ends = 0;
    finished = false;
  }

  unfoldable pub on_message_start : MemStreamBuffer → MemStreamBuffer
  on_message_start b = record b { message_starts = b.message_starts + 1 }

  unfoldable pub on_content_delta : MemStreamBuffer → String → MemStreamBuffer
  on_content_delta b text = record b {
    content = concat b.content text;
    content_deltas = b.content_deltas + 1;
  }

  -- The arguments join the last frame.
  unfoldable pub extend_last : List MemToolCallFrame → String → List MemToolCallFrame
  extend_last [] args = []
  extend_last (c ∷ []) args = record c { args_partial = concat c.args_partial args } ∷ []
  extend_last (c ∷ d ∷ frames) args = c ∷ extend_last (d ∷ frames) args

  unfoldable pub on_tool_call_delta : MemStreamBuffer → String → String → MemStreamBuffer
  unfolding extend_last
  on_tool_call_delta b name args =
      let frames =
        if not (name == "") || is_nil b.tool_calls
        then b.tool_calls ++ record { tool_name = name; args_partial = "" } ∷ []
        else b.tool_calls in
      record b { tool_calls = extend_last frames args; tool_call_deltas = b.tool_call_deltas + 1 }

  unfoldable pub on_message_delta : MemStreamBuffer → MemStreamBuffer
  on_message_delta b = record b { message_deltas = b.message_deltas + 1 }

  unfoldable pub on_message_end : MemStreamBuffer → Usage → MemStreamBuffer
  on_message_end b usage = record b {
    final_usage = usage;
    finished = true;
    message_ends = b.message_ends + 1;
  }

  -- The variables of `drainStream`.
  pub record Draining : Type 0 where
    pub resp : Drained
    pub text_accum : String
    pub tool_calls : List ContentBlock
    pub current : Option ContentBlock
    pub buffer : MemStreamBuffer

  abbrev pub start_draining : Draining
  start_draining = record {
    resp = record { id = ""; model = ""; stop_reason = ""; content = []; usage = no_usage };
    text_accum = "";
    tool_calls = [];
    current = none;
    buffer = new_buffer;
  }

  abbrev pub tool_block : String → String → String → ContentBlock
  tool_block id name input = record {
    type = "tool_use";
    text = "";
    tool_use_id = id;
    tool_name = name;
    input = input;
    output = "";
    is_error = false;
  }

  abbrev pub text_block : String → ContentBlock
  text_block text = record {
    type = "text";
    text = text;
    tool_use_id = "";
    tool_name = "";
    input = "";
    output = "";
    is_error = false;
  }

  -- The pending tool call joins the others.
  abbrev pub flushed : List ContentBlock → Option ContentBlock → List ContentBlock
  flushed calls none = calls
  flushed calls (some c) = calls ++ c ∷ []

  abbrev extended : Option ContentBlock → String → Option ContentBlock
  extended none input = none
  extended (some c) input =
      some (if input == "" then c else record c { input = concat c.input input })

  -- One event of the loop that does not end it.
  unfoldable pub drain_event : Draining → StreamEvent → Draining
  unfolding on_message_start on_content_delta on_tool_call_delta on_message_delta
  drain_event d (message_start none) = record d { buffer = on_message_start d.buffer }
  drain_event d (message_start (some (id, model))) = record d {
    resp = record d.resp { id = id; model = model };
    buffer = on_message_start d.buffer;
  }
  drain_event d (content_delta none) = d
  drain_event d (content_delta (some text)) = record d {
    text_accum = concat d.text_accum text;
    buffer = on_content_delta d.buffer text;
  }
  drain_event d (tool_call_delta none) = d
  drain_event d (tool_call_delta (some (id, name, input))) =
      let buffer = on_tool_call_delta d.buffer name input in
      if name == ""
      then record d { current = extended d.current input; buffer = buffer }
      else record d {
        tool_calls = flushed d.tool_calls d.current;
        current = some (tool_block id name input);
        buffer = buffer;
      }
  drain_event d (message_delta none) = record d { buffer = on_message_delta d.buffer }
  drain_event d (message_delta (some (reason, usage))) = record d {
    resp = record d.resp {
      stop_reason = if reason == "" then d.resp.stop_reason else reason;
      usage = usage;
    };
    buffer = on_message_delta d.buffer;
  }
  drain_event d (message_end u) = d
  drain_event d other_event = d

  abbrev some_or : Usage → Option Usage → Usage
  some_or u none = u
  some_or u (some v) = v

  -- `EventMessageEnd`.
  unfoldable pub drain_end : Draining → Option Usage → Draining
  unfolding on_message_end
  drain_end d u =
      let usage = some_or d.resp.usage u in
      record d { resp = record d.resp { usage = usage }; buffer = on_message_end d.buffer usage }

  -- Behind the label `done`.
  unfoldable pub finish : Draining → Drained × MemStreamBuffer
  finish d =
      let text = if d.text_accum == "" then [] else text_block d.text_accum ∷ [] in
      (
        record d.resp { content = d.resp.content ++ text ++ flushed d.tool_calls d.current },
        d.buffer,
      )

  -- `drainStream` on a stream that ends with an error after these events: `none` where it returns
  -- that error.
  unfoldable pub drain_stream : Draining → List StreamEvent → Option (Drained × MemStreamBuffer)
  unfolding drain_event drain_end finish
  drain_stream d [] =
      if not (d.resp.stop_reason == "")
      then some (finish d)
      else if is_nil d.resp.content && d.text_accum == "" && is_nil d.tool_calls
      then none
      else some (finish d)
  drain_stream d (message_end u ∷ events) = some (finish (drain_end d u))
  drain_stream d (message_start x ∷ events) = drain_stream (drain_event d (message_start x)) events
  drain_stream d (content_delta x ∷ events) = drain_stream (drain_event d (content_delta x)) events
  drain_stream d (tool_call_delta x ∷ events) =
      drain_stream (drain_event d (tool_call_delta x)) events
  drain_stream d (message_delta x ∷ events) = drain_stream (drain_event d (message_delta x)) events
  drain_stream d (other_event ∷ events) = drain_stream d events

  unfoldable pub text_deltas : List String → List StreamEvent
  text_deltas [] = []
  text_deltas (chunk ∷ chunks) = content_delta (some chunk) ∷ text_deltas chunks

  -- The deltas of one content block, in front of the others'.
  unfoldable pub lower_block : Encoder → ℤ → ContentBlock → List StreamEvent
  unfolding text_deltas split_runes
  lower_block enc chunk_size block =
      if block.type == "text"
      then text_deltas (split_runes block.text chunk_size)
      else if block.type == "tool_use"
      then tool_call_delta (some (block.tool_use_id, block.tool_name, encoded enc block.input)) ∷ []
      else []

  unfoldable pub lower_blocks : Encoder → ℤ → List ContentBlock → List StreamEvent
  unfolding lower_block
  lower_blocks enc chunk_size [] = []
  lower_blocks enc chunk_size (block ∷ blocks) =
      lower_block enc chunk_size block ++ lower_blocks enc chunk_size blocks

  -- `none` is the panic of `mustJSON` on an input that is not JSON.
  unfoldable pub lower_to_stream : Encoder → Drained → ℤ → Option (List StreamEvent)
  unfolding lower_blocks all_encoded
  lower_to_stream enc resp chunk_size =
      if all_encoded enc resp.content
      then some (
          message_start (some (resp.id, resp.model)) ∷ lower_blocks enc chunk_size resp.content
          ++ message_delta (some (resp.stop_reason, resp.usage))
            ∷ message_end (some resp.usage)
            ∷ [])
      else none
