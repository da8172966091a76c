-- ===== src/Protocol/StaleResponses.antt =====
-- protocol/heartbeat.go: the tracker of stale responses, a sliding window of times. The mutex is left
-- out: each method runs as a whole under it. `time.Now()` is an argument; times and the window are in
-- nanoseconds. How often the callback was called is kept in the tracker.
mod Window
mod Tests
use brain.Prelude.{ℕ, ◌+◌, Bool, true, false, ◌&&◌, not, List, [], ◌∷◌, ◌++◌, if◌then◌else◌, length}
use brain.Prelude.Int.{ℤ, pos, ◌-ℤ◌, leb_ℤ}

pub record StaleResponseTracker : Type 0 where
  pub window : ℤ
  pub threshold : ℤ
  pub events : List ℕ  -- the oldest first
  pub has_callback : Bool
  pub fired : Bool
  pub calls : ℕ

-- `NewStaleResponseTracker`
pub new_tracker : ℤ → ℤ → Bool → StaleResponseTracker
new_tracker window threshold has_callback = record {
  window = if leb_ℤ window (pos 0) then pos 60_000_000_000 else window;
  threshold = if leb_ℤ threshold (pos 0) then pos 10 else threshold;
  events = [];
  has_callback = has_callback;
  fired = false;
  calls = 0;
}

-- The loop of `Observe`: `!e.Before(now.Add(-window))`.
pub fresh : ℤ → ℕ → List ℕ → List ℕ
fresh window now [] = []
fresh window now (e ∷ es) =
    let rest = fresh window now es in if leb_ℤ (pos now -ℤ window) (pos e) then e ∷ rest else rest

abbrev pub fire : StaleResponseTracker → StaleResponseTracker
fire t =
    if not t.fired && leb_ℤ t.threshold (pos (length t.events))
    then record t { fired = true; calls = if t.has_callback then t.calls + 1 else t.calls }
    else t

abbrev pub seen : StaleResponseTracker → ℕ → StaleResponseTracker
seen t now = record t { events = fresh t.window now t.events ++ now ∷ [] }

-- `Observe`
pub observe : StaleResponseTracker → ℕ → StaleResponseTracker
unfolding fresh
observe t now = fire (seen t now)

-- `Reset`
abbrev pub reset : StaleResponseTracker → StaleResponseTracker
reset t = record t { events = []; fired = false }
