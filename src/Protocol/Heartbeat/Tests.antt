-- ===== src/Protocol/Heartbeat/Tests.antt =====
-- A peer that never answers, and one that answers every other ping.
use brain.Protocol.Heartbeat.{new_ping_scheduler, PingOp, tick_op, pong_op, run}
use brain.Protocol.Heartbeat.Hung.{silence_reported}
use brain.Prelude.{ℕ, ◌≡◌, refl, List, [], ◌∷◌, map, arith}
use brain.Prelude.Int.{pos}

abbrev four_ticks : List (ℕ × ℕ × ℕ)
four_ticks = (11, 11, 11) ∷ (22, 22, 22) ∷ (33, 33, 33) ∷ (44, 44, 44) ∷ []

silence_reported_example :
    (run (new_ping_scheduler (pos 10) (pos 3)) (map tick_op four_ticks)).hung ≡ 1
silence_reported_example =
    silence_reported (pos 10) (pos 3) 0 four_ticks (unfold new_ping_scheduler in refl)
      (unfold new_ping_scheduler in (omega arith))

abbrev every_other : List PingOp
every_other =
    tick_op (11, 11, 11)
    ∷ tick_op (22, 22, 22)
    ∷ pong_op 2 23
    ∷ tick_op (33, 33, 33)
    ∷ tick_op (44, 44, 44)
    ∷ pong_op 4 45
    ∷ tick_op (55, 55, 55)
    ∷ tick_op (66, 66, 66)
    ∷ pong_op 6 67
    ∷ []

-- OnHung is called though no two misses follow one another.
misses_apart : (run (new_ping_scheduler (pos 10) (pos 3)) every_other).hung ≡ 1
unfolding run new_ping_scheduler
misses_apart = refl
