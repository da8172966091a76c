-- ===== src/Protocol/Heartbeat.antt =====
-- The PingScheduler of protocol/heartbeat.go. Each reading of the clock is an argument; the pings
-- that go out through the session are left out, for their errors are ignored.
pub mod Hung
mod Tests
use brain.Prelude.Assoc.{insert, delete}
use brain.Prelude.{
  ℕ, ◌+◌, ◌*◌, Bool, true, false, ◌&&◌, not, Option, none, some, List, [], ◌∷◌, ltb, leb,
  if◌then◌else◌, nat_eq, string_eq, ◌==◌, length,
}
use brain.Prelude.Int.{ℤ, pos, ltb_ℤ, pos_part}

pub record PingScheduler : Type 0 where
  pub interval : ℕ
  pub miss_threshold : ℕ
  pub seq : ℕ
  pub last_pong : ℕ
  pub pending : List (ℕ × ℕ)  -- number, time of sending
  pub hung_fired : Bool
  pub hung : ℕ  -- how often OnHung has been called
  pub stopped : Bool

-- 10 seconds.
abbrev pub default_interval : ℕ
default_interval = 10000000000

abbrev or_default : ℤ → ℕ → ℕ
or_default x d = if ltb_ℤ (pos 0) x then pos_part x else d

unfoldable pub new_ping_scheduler : ℤ → ℤ → PingScheduler
new_ping_scheduler interval threshold = record {
  interval = or_default interval default_interval;
  miss_threshold = or_default threshold 3;
  seq = 0;
  last_pong = 0;
  pending = [];
  hung_fired = false;
  hung = 0;
  stopped = false;
}

unfoldable pub send_ping : PingScheduler → ℕ → PingScheduler
unfolding insert
send_ping p now = record p { seq = p.seq + 1; pending = insert (p.seq + 1) now p.pending }

-- The pings sent before the cutoff, `age` before now.
unfoldable pub sent_before : ℕ → ℕ → List (ℕ × ℕ) → ℕ
sent_before age now [] = 0
sent_before age now ((seq, at) ∷ pending) =
    (if ltb (at + age) now then 1 else 0) + sent_before age now pending

unfoldable pub pruned : ℕ → ℕ → List (ℕ × ℕ) → List (ℕ × ℕ)
pruned age now [] = []
pruned age now ((seq, at) ∷ pending) =
    let rest = pruned age now pending in if ltb (at + age) now then rest else (seq, at) ∷ rest

-- `countMisses`, with the times of its two cutoffs.
unfoldable pub count_misses : PingScheduler → ℕ → ℕ → PingScheduler × ℕ
unfolding sent_before pruned
count_misses p now prune_now = (
  record p { pending = pruned (p.miss_threshold * 2 * p.interval) prune_now p.pending },
  sent_before p.interval now p.pending,
)

unfoldable pub after_count : PingScheduler × ℕ → PingScheduler
after_count (p, misses) =
    if leb p.miss_threshold misses && not p.hung_fired
    then record p { hung_fired = true; hung = p.hung + 1 }
    else p

-- One tick of `loop`.
unfoldable pub tick : PingScheduler → ℕ × ℕ × ℕ → PingScheduler
unfolding after_count count_misses send_ping
tick p (sent, now, prune_now) =
    if p.stopped then p else after_count (count_misses (send_ping p sent) now prune_now)

unfoldable pub handle_pong : PingScheduler → ℕ → ℕ → PingScheduler
unfolding delete
handle_pong p seq now = record p { pending = delete seq p.pending; last_pong = now }

unfoldable pub stop : PingScheduler → PingScheduler
stop p = record p { stopped = true }

unfoldable pub pending_count : PingScheduler → ℕ
pending_count p = length p.pending

-- `LastPongAt`: `none` is the zero time.
unfoldable pub last_pong_at : PingScheduler → Option ℕ
last_pong_at p = if p.last_pong == 0 then none else some p.last_pong

pub data PingOp : Type 0 where
  tick_op : ℕ × ℕ × ℕ → PingOp
  pong_op : ℕ → ℕ → PingOp
  stop_op : PingOp

unfoldable pub step : PingScheduler → PingOp → PingScheduler
unfolding tick handle_pong stop
step p (tick_op t) = tick p t
step p (pong_op seq now) = handle_pong p seq now
step p stop_op = stop p

unfoldable pub run : PingScheduler → List PingOp → PingScheduler
unfolding step
run p [] = p
run p (op ∷ ops) = run (step p op) ops
