-- ===== src/Protocol/StaleResponses/Tests.antt =====
-- A window of ten nanoseconds.
use brain.Prelude.{◌≡◌, refl, true, false, []}
use brain.Prelude.Int.{pos}
use brain.Protocol.StaleResponses.{StaleResponseTracker, observe}

abbrev small_window : StaleResponseTracker
small_window = record {
  window = pos 10;
  threshold = pos 2;
  events = [];
  has_callback = true;
  fired = false;
  calls = 0;
}

-- The second event is in the window of the first, and the third fires nothing again.
fires_at_second : (observe (observe (observe small_window 1) 5) 7).calls ≡ 1
unfolding observe
fires_at_second = refl
