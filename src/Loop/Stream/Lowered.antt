-- ===== src/Loop/Stream/Lowered.antt =====
-- A response that goes through a stream comes back.
use mathlib.Core.Option.{some-injective}
use brain.Loop.Budget.{Floats}
use brain.Loop.Chat.{ContentBlock}
use brain.Loop.Stream.{
  rune_count, take_runes, drop_runes, split_rounds, split_runes, Encoder, encoded, all_encoded,
  StreamEvent, message_start, content_delta, tool_call_delta, message_delta, message_end,
  other_event, Drained, MemToolCallFrame, MemStreamBuffer, on_content_delta, extend_last,
  on_tool_call_delta, Draining, start_draining, tool_block, text_block, flushed, drain_event,
  drain_end, drain_stream, text_deltas, lower_block, lower_blocks, lower_to_stream,
}
use brain.Prelude.{
  ℕ, zero, suc, ◌+◌, ◌≤◌, String, ◌≡◌, refl, sym, ap, ◌∙◌, ◌≢◌, inl, inr, Bool, true, false, ◌&&◌,
  not, Option, none, some, List, [], ◌∷◌, ◌++◌, arith, leb, if◌then◌else◌, nat_eq, string_eq, ◌==◌,
  Bool-cases, concat, texts_differ, All, All-append,
}
use brain.Prelude.Int.{ℤ, pos, pos_part, ltb_ℤ, int_eq}
use Prim.Native.String.{◌∷◌ as ◌∷ₛ◌, [] as []ₛ}
use text.Mathlib.TextLemmas.{
  append_assoc as text_assoc, append-nil as text-nil, cons-append, nil-append,
}
use text.Mathlib.TextEquality.{eq_iff}
use mathlib.Core.Path.{subst}
use mathlib.Core.List.{append_assoc, append-nil}

concat_all : List String → String
concat_all [] = ""
concat_all (s ∷ ss) = concat s (concat_all ss)

take-drop : (n : ℕ) (s : String) → concat (take_runes n s) (drop_runes n s) ≡ s
unfolding take_runes drop_runes
take-drop zero s = nil-append s
take-drop (suc n) []ₛ = nil-append ""
take-drop (suc n) (c ∷ₛ s) =
    cons-append c (take_runes n s) (drop_runes n s) ∙ ap (λ t. c ∷ₛ t) (take-drop n s)

rune_count-drop :
    (n : ℕ) (s : String)
    → rune_count (drop_runes n s) + (if leb n (rune_count s) then n else rune_count s)
      ≡ rune_count s
unfolding rune_count drop_runes
rune_count-drop zero s = ground arith
rune_count-drop (suc n) []ₛ = ground arith
rune_count-drop (suc n) (c ∷ₛ s) = ground (arith, rune_count-drop n s)

no_runes : (s : String) → rune_count s ≡ 0 → s ≡ ""
unfolding rune_count
no_runes []ₛ h = refl
no_runes (c ∷ₛ s) h = absurd (omega arith)

shorter :
    (size : ℕ) (s : String) (fuel : ℕ)
    → 1 ≤ size
    → rune_count s ≤ suc fuel
    → rune_count s ≢ 0
    → rune_count (drop_runes size s) ≤ fuel
shorter size s fuel h k some_left = ground (arith, rune_count-drop size s)

-- The chunks put together are the text.
split_rounds-concat :
    (fuel size : ℕ) (s : String)
    → 1 ≤ size
    → rune_count s ≤ fuel
    → concat_all (split_rounds fuel size s) ≡ s
unfolding concat_all split_rounds
split_rounds-concat zero size s h k = sym (no_runes s (omega arith))
split_rounds-concat (suc fuel) size s h k = elim (Bool-cases (s == "")) [
  | inl e ↦ rw e (sym ((eq_iff s "").0 e))
  | inr e ↦
      let less : rune_count (drop_runes size s) ≤ fuel =
        shorter size s fuel h k (λ z. texts_differ s "" e (no_runes s z)) in
      rw e (
        ap (concat (take_runes size s)) (split_rounds-concat fuel size (drop_runes size s) h less)
        ∙ take-drop size s)
]

split_runes-concat : (s : String) (chunk_size : ℤ) → concat_all (split_runes s chunk_size) ≡ s
unfolding split_runes
split_runes-concat s chunk_size =
    split_rounds-concat (rune_count s) (if ltb_ℤ (pos 0) chunk_size then pos_part chunk_size else 1)
      s (positive chunk_size) (omega arith)
  where
    positive : (k : ℤ) → 1 ≤ (if ltb_ℤ (pos 0) k then pos_part k else 1)
    positive k = ground arith

-- The text and the tool calls of a response, as a stream shows them.
abbrev pub shown_text : List ContentBlock → String
shown_text [] = ""
shown_text (b ∷ bs) = concat (if b.type == "text" then b.text else "") (shown_text bs)

abbrev pub is_tool_use : ContentBlock → Bool
is_tool_use b = not (b.type == "text") && b.type == "tool_use"

module _ (f : Floats) (enc : Encoder) where
  abbrev pub shown_call : ContentBlock → ContentBlock
  shown_call b = tool_block f b.tool_use_id b.tool_name (encoded enc b.input)

  abbrev pub shown_calls : List ContentBlock → List ContentBlock
  shown_calls [] = []
  shown_calls (b ∷ bs) = if is_tool_use b then shown_call b ∷ shown_calls bs else shown_calls bs

  abbrev pub shown_frames : List ContentBlock → List (MemToolCallFrame f)
  shown_frames [] = []
  shown_frames (b ∷ bs) =
      if is_tool_use b
      then record { tool_name = b.tool_name; args_partial = encoded enc b.input } ∷ shown_frames bs
      else shown_frames bs

  -- What the events of some blocks do to the loop's variables.
  record Adds (d d' : Draining f) (text : String) (calls : List ContentBlock)
      (frames : List (MemToolCallFrame f)) : Type 0 where
    resp_kept : d'.resp ≡ d.resp
    text_added : d'.text_accum ≡ concat d.text_accum text
    calls_added : flushed f d'.tool_calls d'.current ≡ flushed f d.tool_calls d.current ++ calls
    content_added : d'.buffer.content ≡ concat d.buffer.content text
    frames_added : d'.buffer.tool_calls ≡ d.buffer.tool_calls ++ frames

  Adds-none : (d : Draining f) → Adds d d "" [] []
  Adds-none d = record {
    resp_kept = refl;
    text_added = sym (text-nil d.text_accum);
    calls_added = sym (append-nil (flushed f d.tool_calls d.current));
    content_added = sym (text-nil d.buffer.content);
    frames_added = sym (append-nil d.buffer.tool_calls);
  }

  Adds-trans :
      {d d' d'' : Draining f} (t t' : String) (c c' : List ContentBlock)
      (m m' : List (MemToolCallFrame f))
      → Adds d d' t c m
      → Adds d' d'' t' c' m'
      → Adds d d'' (concat t t') (c ++ c') (m ++ m')
  Adds-trans {d} t t' c c' m m' a b = record {
    resp_kept = b.resp_kept ∙ a.resp_kept;
    text_added = b.text_added ∙ ap (λ x. concat x t') a.text_added ∙ text_assoc d.text_accum t t';
    calls_added =
        b.calls_added
        ∙ ap (λ x. x ++ c') a.calls_added
        ∙ append_assoc (flushed f d.tool_calls d.current) c c';
    content_added =
        b.content_added ∙ ap (λ x. concat x t') a.content_added ∙ text_assoc d.buffer.content t t';
    frames_added =
        b.frames_added ∙ ap (λ x. x ++ m') a.frames_added ∙ append_assoc d.buffer.tool_calls m m';
  }

  run_events : Draining f → List (StreamEvent f) → Draining f
  run_events d [] = d
  run_events d (e ∷ es) = run_events (drain_event f d e) es

  run_events-append :
      (d : Draining f) (es es' : List (StreamEvent f))
      → run_events d (es ++ es') ≡ run_events (run_events d es) es'
  unfolding run_events
  run_events-append d [] es' = refl
  run_events-append d (e ∷ es) es' = run_events-append (drain_event f d e) es es'

  abbrev GoesOn : StreamEvent f → Type 0
  GoesOn (message_end u) = ⊥
  GoesOn _ = Unit

  drain_stream-run :
      (d : Draining f) (es rest : List (StreamEvent f))
      → All GoesOn es
      → drain_stream f d (es ++ rest) ≡ drain_stream f (run_events d es) rest
  unfolding drain_stream run_events
  drain_stream-run d [] rest h = refl
  drain_stream-run d (message_end u ∷ es) rest h = absurd h.0
  drain_stream-run d (message_start x ∷ es) rest h =
      drain_stream-run (drain_event f d (message_start x)) es rest h.1
  drain_stream-run d (content_delta x ∷ es) rest h =
      drain_stream-run (drain_event f d (content_delta x)) es rest h.1
  drain_stream-run d (tool_call_delta x ∷ es) rest h =
      drain_stream-run (drain_event f d (tool_call_delta x)) es rest h.1
  drain_stream-run d (message_delta x ∷ es) rest h =
      drain_stream-run (drain_event f d (message_delta x)) es rest h.1
  drain_stream-run d (other_event ∷ es) rest h =
      unfold drain_event in drain_stream-run d es rest h.1

  chunk-Adds :
      (d : Draining f) (chunk : String)
      → Adds d (drain_event f d (content_delta (some chunk))) chunk [] []
  unfolding drain_event on_content_delta
  chunk-Adds d chunk = record {
    resp_kept = refl;
    text_added = refl;
    calls_added = sym (append-nil (flushed f d.tool_calls d.current));
    content_added = refl;
    frames_added = sym (append-nil d.buffer.tool_calls);
  }

  text_deltas-Adds :
      (d : Draining f) (chunks : List String)
      → Adds d (run_events d (text_deltas f chunks)) (concat_all chunks) [] []
  unfolding run_events text_deltas concat_all
  text_deltas-Adds d [] = Adds-none d
  text_deltas-Adds d (chunk ∷ chunks) =
      Adds-trans chunk (concat_all chunks) [] [] [] [] (chunk-Adds d chunk)
        (text_deltas-Adds (drain_event f d (content_delta (some chunk))) chunks)

  text_deltas-GoesOn : (chunks : List String) → All GoesOn (text_deltas f chunks)
  unfolding text_deltas
  text_deltas-GoesOn [] = tt
  text_deltas-GoesOn (chunk ∷ chunks) = (tt, text_deltas-GoesOn chunks)

  extend_last_new :
      (frames : List (MemToolCallFrame f)) (name args : String)
      → extend_last f (frames ++ record { tool_name = name; args_partial = "" } ∷ []) args
        ≡ frames ++ record { tool_name = name; args_partial = args } ∷ []
  unfolding extend_last
  extend_last_new [] name args =
      ap (λ a. record { tool_name = name; args_partial = a } ∷ []) (nil-append args)
  extend_last_new (c ∷ []) name args =
      ap (λ a. c ∷ record { tool_name = name; args_partial = a } ∷ []) (nil-append args)
  extend_last_new (c ∷ d ∷ frames) name args =
      ap (λ l. c ∷ l) (extend_last_new (d ∷ frames) name args)

  call-Adds :
      (d : Draining f) (id name input : String)
      → (name == "") ≡ false
      → Adds d
          (drain_event f d (tool_call_delta (some (id, name, input))))
          ""
          (tool_block f id name input ∷ [])
          (record { tool_name = name; args_partial = input } ∷ [])
  unfolding drain_event on_tool_call_delta
  call-Adds d id name input named = rw named (record {
    resp_kept = refl;
    text_added = sym (text-nil d.text_accum);
    calls_added = refl;
    content_added = sym (text-nil d.buffer.content);
    frames_added = extend_last_new d.buffer.tool_calls name input;
  })

  -- Every tool call has a name.
  abbrev pub AreNamed : List ContentBlock → Type 0
  AreNamed [] = Unit
  AreNamed (b ∷ bs) = (is_tool_use b ≡ true → (b.tool_name == "") ≡ false) × AreNamed bs

  block-Adds :
      (k : ℤ) (d : Draining f) (b : ContentBlock)
      → (is_tool_use b ≡ true → (b.tool_name == "") ≡ false)
      → Adds d
          (run_events d (lower_block f enc k b))
          (if b.type == "text" then b.text else "")
          (if is_tool_use b then shown_call b ∷ [] else [])
          (if is_tool_use b
            then record { tool_name = b.tool_name; args_partial = encoded enc b.input } ∷ []
            else [])
  unfolding lower_block run_events
  block-Adds k d b named = elim (Bool-cases (b.type == "text")) [
    | inl e ↦ rw e (
        subst (λ t. Adds d (run_events d (text_deltas f (split_runes b.text k))) t [] [])
          (split_runes-concat b.text k) (text_deltas-Adds d (split_runes b.text k)))
    | inr e ↦ elim (Bool-cases (b.type == "tool_use")) [
      | inl t ↦
          let is_named = named (rw (e, t) refl) in
          rw (e, t) (call-Adds d b.tool_use_id b.tool_name (encoded enc b.input) is_named)
      | inr t ↦ rw (e, t) (Adds-none d)
    ]
  ]

  abbrev LowersTo :
      ℤ → Draining f → List ContentBlock → List ContentBlock → List (MemToolCallFrame f) → Type 0
  LowersTo k d bs calls frames =
      Adds d (run_events d (lower_blocks f enc k bs)) (shown_text bs) calls frames

  lower_blocks-Adds :
      (k : ℤ) (d : Draining f) (bs : List ContentBlock)
      → AreNamed bs
      → LowersTo k d bs (shown_calls bs) (shown_frames bs)
  unfolding lower_blocks run_events
  lower_blocks-Adds k d [] h = Adds-none d
  lower_blocks-Adds k d (b ∷ bs) h =
      let first = block-Adds k d b h.0 in
      let d' = run_events d (lower_block f enc k b) in
      let others = lower_blocks-Adds k d' bs h.1 in
      let whole = Adds-trans _ _ _ _ _ _ first others in
      subst (λ x. Adds d x (shown_text (b ∷ bs)) (shown_calls (b ∷ bs)) (shown_frames (b ∷ bs)))
        (sym (run_events-append d (lower_block f enc k b) (lower_blocks f enc k bs)))
        (elim (Bool-cases (is_tool_use b)) [
          | inl e ↦ rw e (rw e at whole)
          | inr e ↦ rw e (rw e at whole)
        ])

  block-GoesOn : (k : ℤ) (b : ContentBlock) → All GoesOn (lower_block f enc k b)
  unfolding lower_block
  block-GoesOn k b = elim (Bool-cases (b.type == "text")) [
    | inl e ↦ rw e (text_deltas-GoesOn (split_runes b.text k))
    | inr e ↦ elim (Bool-cases (b.type == "tool_use")) [
      | inl t ↦ rw (e, t) (tt, tt)
      | inr t ↦ rw (e, t) tt
    ]
  ]

  lower_blocks-GoesOn : (k : ℤ) (bs : List ContentBlock) → All GoesOn (lower_blocks f enc k bs)
  unfolding lower_blocks
  lower_blocks-GoesOn k [] = tt
  lower_blocks-GoesOn k (b ∷ bs) =
      All-append GoesOn (lower_block f enc k b) (lower_blocks f enc k bs) (block-GoesOn k b)
        (lower_blocks-GoesOn k bs)

  -- The content that comes out: the text in one block, unless there is none, then the tool calls.
  abbrev pub shown_content : List ContentBlock → List ContentBlock
  shown_content bs =
      (if shown_text bs == "" then [] else text_block f (shown_text bs) ∷ []) ++ shown_calls bs

  -- The response that the last two events of a stream leave, by what was there before.
  closed : Drained f → Drained f → String → List ContentBlock → Drained f
  closed resp r text calls = record r {
    stop_reason = if resp.stop_reason == "" then r.stop_reason else resp.stop_reason;
    usage = resp.usage;
    content = r.content ++ (if text == "" then [] else text_block f text ∷ []) ++ calls;
  }

  abbrev last_events : Drained f → List (StreamEvent f)
  last_events resp =
      message_delta (some (resp.stop_reason, resp.usage)) ∷ message_end (some resp.usage) ∷ []

  last_buffer : Draining f → Drained f → MemStreamBuffer f
  unfolding drain_event drain_end
  last_buffer d resp =
      (drain_end f (drain_event f d (message_delta (some (resp.stop_reason, resp.usage))))
        (some resp.usage)).buffer

  drain-last_events :
      (d : Draining f) (resp : Drained f)
      → drain_stream f d (last_events resp)
        ≡ some
            (closed resp d.resp d.text_accum (flushed f d.tool_calls d.current), last_buffer d resp)
  unfolding drain_stream closed last_buffer
  drain-last_events d resp = refl

  reason_kept : (s : String) → (if s == "" then "" else s) ≡ s
  reason_kept s = elim (Bool-cases (s == "")) [
    | inl e ↦ rw e (sym ((eq_iff s "").0 e))
    | inr e ↦ rw e refl
  ]

  closed_fresh :
      (resp : Drained f) (text : String) (calls : List ContentBlock)
      → closed resp (record (start_draining f).resp { id = resp.id; model = resp.model }) text calls
        ≡ record resp { content = (if text == "" then [] else text_block f text ∷ []) ++ calls }
  unfolding closed
  closed_fresh resp text calls =
      ap
        (λ r. record resp {
          stop_reason = r;
          content = (if text == "" then [] else text_block f text ∷ []) ++ calls;
        })
        (reason_kept resp.stop_reason)

  -- The stream of a response that is lowered without a panic.
  abbrev stream_of : Drained f → ℤ → List (StreamEvent f)
  unfolding lower_blocks
  stream_of resp k =
      message_start (some (resp.id, resp.model)) ∷ lower_blocks f enc k resp.content
      ++ last_events resp

  lowered-stream_of :
      (resp : Drained f) (k : ℤ) (events : List (StreamEvent f))
      → lower_to_stream f enc resp k ≡ some events
      → stream_of resp k ≡ events
  unfolding lower_to_stream stream_of
  lowered-stream_of resp k events e = elim (Bool-cases (all_encoded enc resp.content)) [
    | inl q ↦ some-injective _ _ (sym (rw q refl) ∙ e)
    | inr q ↦ absurd (none_found (sym (rw q refl) ∙ e))
  ]
    where
      none_found : ◌≡◌ {A = Option (List (StreamEvent f))} none (some events) → ⊥
      none_found h = absurd (cc)

  -- A response whose tool calls all have names, lowered to a stream without a panic and drained from
  -- it, comes back with its id, model, stop reason and usage, with the text of all its text blocks in
  -- one block, unless this is empty, and then its tool calls in their order, each with the id, the
  -- name, and the input as json.Marshal writes it. The consumer of the stream has then seen the same
  -- text, the same names and inputs, and the usage, and is finished. This holds for chunks of any
  -- size.
  pub drain_lowered :
      (resp : Drained f) (chunk_size : ℤ) (events : List (StreamEvent f))
      → AreNamed resp.content
      → lower_to_stream f enc resp chunk_size ≡ some events
      → (buffer : MemStreamBuffer f) × (drain_stream f (start_draining f) events
          ≡ some (record resp { content = shown_content resp.content }, buffer))
        × (buffer.content ≡ shown_text resp.content)
        × (buffer.tool_calls ≡ shown_frames resp.content)
        × (buffer.final_usage ≡ resp.usage)
        × (buffer.finished ≡ true)
  drain_lowered resp chunk_size events named lowered =
      let d = drain_event f (start_draining f) (message_start (some (resp.id, resp.model))) in
      let a = lower_blocks-Adds chunk_size d resp.content named in
      let d' = run_events d (lower_blocks f enc chunk_size resp.content) in
      let T = shown_text resp.content in
      let C = shown_calls resp.content in
      let runs =
        drain_stream-run d (lower_blocks f enc chunk_size resp.content) (last_events resp)
          (lower_blocks-GoesOn chunk_size resp.content)
        ∙ drain-last_events d' resp in
      let text : d'.text_accum ≡ T = unfold drain_event in (a.text_added ∙ nil-append T) in
      let calls : flushed f d'.tool_calls d'.current ≡ C = unfold drain_event in a.calls_added in
      let flush = flushed f d'.tool_calls d'.current in
      let same : closed resp d'.resp d'.text_accum flush
          ≡ record resp { content = shown_content resp.content } =
        ap (λ r. closed resp r d'.text_accum flush) a.resp_kept
        ∙ ap (λ t. closed resp d.resp t flush) text
        ∙ ap (closed resp d.resp T) calls
        ∙ unfold drain_event in closed_fresh resp T C in
      let drained : drain_stream f (start_draining f) (
            message_start (some (resp.id, resp.model)) ∷ lower_blocks f enc chunk_size resp.content
            ++ last_events resp)
          ≡ some (record resp { content = shown_content resp.content }, last_buffer d' resp) =
        unfold drain_stream in (runs ∙ ap (λ r. some (r, last_buffer d' resp)) same) in
      (
        last_buffer d' resp,
        ap (drain_stream f (start_draining f))
              (sym (lowered-stream_of resp chunk_size events lowered))
            ∙ (unfold stream_of in drained),
        unfold last_buffer in unfold drain_event in (a.content_added ∙ nil-append T),
        unfold last_buffer in unfold drain_event in a.frames_added,
        unfold last_buffer in refl,
        unfold last_buffer in refl,
      )
