-- ===== src/Protocol/Frame/Writer.antt =====
-- The frame writer of protocol/frame.go over every sequence of calls: the queue in front of the
-- writer's goroutine, and a reader at the other end. A write to the stream succeeds whole. A call
-- counts when its `select` on the queue is decided, and no Close comes between its test of `closed`
-- and that.
pub mod Delivery
mod Tests
use mathlib.Core.List.{append-nil, append_assoc}
use brain.Prelude.{
  ℕ, zero, suc, ◌+◌, ◌≤◌, String, ◌≡◌, Bool, true, false, ◌||◌, not, Option, none, some, List, [],
  ◌∷◌, ◌++◌, if◌then◌else◌, is_some, length,
}
use brain.Errors.Codes
use brain.Prelude.Text.{Bytes, trim_space}
use brain.Protocol.Frame.{
  has_bom, Frame, max_header_line_size, got_frame, read_error, out_of_fuel, read_frame, write_one,
  check_frame,
}
use brain.Protocol.Frame.Lines.{sent_type, has_cr}

pub record FrameWriter : Type 0 where
  pub closed : Bool
  pub queue : List Frame
  pub wire : Bytes

pub new_frame_writer : FrameWriter
new_frame_writer = record { closed = false; queue = []; wire = [] }

-- Whether a caller's context ends a call, while it waits for room in the queue or, later, for the
-- goroutine to have written the frame.
pub data Context : Type 0 where
  live : Context
  canceled_enqueue canceled_wait : Context

-- The two `select`s of `WriteFrame`.
abbrev selected : FrameWriter → Frame → Context → FrameWriter × Option String
selected w frame live = (record w { queue = w.queue ++ frame ∷ [] }, none)
selected w frame canceled_enqueue = (w, some Codes.shutting_down)
selected w frame canceled_wait =
    (record w { queue = w.queue ++ frame ∷ [] }, some Codes.shutting_down)

-- `WriteFrame` behind the checks of the frame, which have given an error or not.
abbrev handed_over : FrameWriter → Frame → Context → Option String → FrameWriter × Option String
handed_over w frame ctx (some code) = (w, some code)
handed_over w frame ctx none =
    if w.closed then (w, some Codes.shutting_down) else selected w frame ctx

-- `WriteFrame`, and the error that it returns.
pub write_frame : FrameWriter → Context → Option Frame → FrameWriter × Option String
write_frame w ctx none = (w, check_frame none)
write_frame w ctx (some frame) = handed_over w frame ctx (check_frame (some frame))

-- One round of the writer's goroutine.
pub loop : FrameWriter → FrameWriter
loop w = elim w.queue [
  | [] ↦ w
  | frame ∷ rest ↦ record w { queue = rest; wire = w.wire ++ write_one frame }
]

-- All rounds of it that are due, for `Close` waits for them.
pub drain : List Frame → Bytes → Bytes
drain [] wire = wire
drain (frame ∷ rest) wire = drain rest (wire ++ write_one frame)

pub close : FrameWriter → FrameWriter
unfolding drain
close w =
    if w.closed then w else record w { closed = true; queue = []; wire = drain w.queue w.wire }

pub data WriterOp : Type 0 where
  write_op : Context → Option Frame → WriterOp
  loop_op close_op : WriterOp

pub step : FrameWriter → WriterOp → FrameWriter
unfolding write_frame loop close
step w (write_op ctx f) = (write_frame w ctx f).0
step w loop_op = loop w
step w close_op = close w

pub run : FrameWriter → List WriterOp → FrameWriter
unfolding step
run w [] = w
run w (op ∷ ops) = run (step w op) ops

-- The frames that the calls have accepted: those that were given no error.
abbrev if_accepted : Frame → Option String → List Frame
if_accepted f (some code) = []
if_accepted f none = f ∷ []

abbrev accepted_by : FrameWriter → WriterOp → List Frame
accepted_by w (write_op ctx (some f)) = if_accepted f (write_frame w ctx (some f)).1
accepted_by w _ = []

pub accepted : FrameWriter → List WriterOp → List Frame
accepted w [] = []
accepted w (op ∷ ops) = accepted_by w op ++ accepted (step w op) ops

-- The frames of the calls that returned no error or were canceled while they waited for the
-- goroutine, in an open writer: a canceled call's frame is written all the same.
abbrev pub reaches_queue : Context → Bool
reaches_queue live = true
reaches_queue canceled_enqueue = false
reaches_queue canceled_wait = true

abbrev written_by : FrameWriter → WriterOp → List Frame
written_by w (write_op ctx (some f)) =
    if is_some (check_frame (some f)) || w.closed || not (reaches_queue ctx) then [] else f ∷ []
written_by w _ = []

pub written : FrameWriter → List WriterOp → List Frame
written w [] = []
written w (op ∷ ops) = written_by w op ++ written (step w op) ops

-- Frames among others, in their order.
pub data IsSublist : List Frame → List Frame → Type 0 where
  none_left : IsSublist [] []
  keep : {f : Frame} {fs gs : List Frame} → IsSublist fs gs → IsSublist (f ∷ fs) (f ∷ gs)
  pass_over : {f : Frame} {fs gs : List Frame} → IsSublist fs gs → IsSublist fs (f ∷ gs)

-- What frames are on the wire.
pub wire_of : List Frame → Bytes
wire_of [] = []
wire_of (f ∷ fs) = write_one f ++ wire_of fs

-- A reader at the other end: so many frames.
pub read_frames : ℕ → Bytes → Option (List Frame)
read_frames zero s = some []
read_frames (suc n) s = elim (read_frame false s) [
  | got_frame f rest ↦ elim (read_frames n rest) [ none ↦ none | some fs ↦ some (f ∷ fs) ]
  | read_error code ↦ none
  | out_of_fuel ↦ none
]

-- What the reader is to see of a frame.
abbrev pub seen : Frame → Frame
seen f = record f { content_type = sent_type f }

-- A frame whose body and content type survive the wire.
pub record IsClean (f : Frame) : Type 0 where
  pub passes : check_frame (some f) ≡ none
  pub no_bom : has_bom f.body ≡ false
  pub no_cr : has_cr (sent_type f) ≡ false
  pub trimmed : trim_space (sent_type f) ≡ sent_type f
  pub short : length (sent_type f) + 14 ≤ max_header_line_size
