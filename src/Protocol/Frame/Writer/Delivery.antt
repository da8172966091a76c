-- ===== src/Protocol/Frame/Writer/Delivery.antt =====
-- What the frame writer delivers.
use brain.Errors.Codes
use brain.Prelude.{◌≡◌, ◌⊎◌, false, List, [], ◌++◌}
use brain.Prelude.Text.{Bytes}
use brain.Protocol.Frame.{Frame}
use brain.Protocol.Frame.Writer.{FrameWriter, wire_of}

-- What is on the wire and what is queued for it.
pub sent : FrameWriter → Bytes
sent w = w.wire ++ wire_of w.queue

-- A closed writer has nothing queued.
IsDrained : FrameWriter → Type 0
IsDrained w = (w.closed ≡ false) ⊎ (w.queue ≡ [])
