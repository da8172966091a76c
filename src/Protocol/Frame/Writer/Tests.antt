-- ===== src/Protocol/Frame/Writer/Tests.antt =====
-- A writer that is closed with frames in its queue.
use brain.Prelude.{◌≡◌, refl, none, some, List, [], ◌∷◌}
use brain.Prelude.Int.{pos}
use brain.Prelude.Text.{Bytes}
use brain.Protocol.Frame.{Frame, check_frame}
use brain.Protocol.Frame.Writer.{
  new_frame_writer, live, canceled_enqueue, canceled_wait, write_frame, loop, close, WriterOp,
  write_op, loop_op, close_op, step, accepted,
}

abbrev a_body : Bytes
a_body = 123 ∷ 34 ∷ 34 ∷ 125 ∷ []

abbrev a_frame : Frame
a_frame = record { content_length = pos 4; content_type = []; body = a_body }

abbrev other_frame : Frame
other_frame = record { content_length = pos 0; content_type = 120 ∷ 47 ∷ 121 ∷ []; body = [] }

abbrev calls : List WriterOp
calls =
    write_op live (some a_frame)
    ∷ write_op live none
    ∷ loop_op
    ∷ write_op canceled_wait (some other_frame)
    ∷ write_op canceled_enqueue (some a_frame)
    ∷ close_op
    ∷ write_op live (some a_frame)
    ∷ []

accepted_one : accepted new_frame_writer calls ≡ a_frame ∷ []
unfolding accepted new_frame_writer step write_frame check_frame loop close
accepted_one = refl
