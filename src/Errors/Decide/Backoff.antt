-- ===== src/Errors/Decide/Backoff.antt =====
-- The backoff in closed form, and the range of the delays that `Decide` proposes.
use brain.Prelude.{ℕ, zero, suc, ◌+◌, ◌*◌, ◌^◌, ◌≤◌, ◌<◌, ◌≡◌, ◌⊎◌, inl, inr, Bool, some, arith}
use brain.Prelude.Int.{ℤ, pos, negsuc, ◌<ℤ◌}
use brain.Errors.Class.{ErrorClass}
use brain.Errors.New.{BrainError}
use brain.Errors.Decide.{
  retry, DecideContext, backoff_initial, backoff_max, draw_range, grow, backoff_base, jittered,
  backoff_for, decide_class, decide,
}
use Prim.Native.Nat.{min}
use native.Mathlib.Nat.{pow-suc}

pow_pos : (n : ℕ) → 1 ≤ 2 ^ n
pow_pos zero = omega arith
pow_pos (suc n) = simp pow-suc (omega (arith, pow_pos n))

pow_double : (base n : ℕ) → base * 2 ^ suc n ≡ base * 2 * 2 ^ n
pow_double base n = rw pow-suc (omega arith)

le_pow_double : (base n : ℕ) → base * 2 ≤ base * 2 * 2 ^ n
le_pow_double base n = grind (arith, pow_pos n)

grow-eq-min : (n base : ℕ) → base ≤ backoff_max → grow n base ≡ min (base * 2 ^ n) backoff_max
unfolding grow
grow-eq-min zero base h = omega arith
grow-eq-min (suc n) base h =
    rw pow_double (ground (arith, le_pow_double base n, grow-eq-min n (base * 2)))

-- For an attempt that is not negative the base delay is the initial one doubled for each attempt,
-- and never above the maximum; for a negative attempt it is the initial one.
backoff_base_closed :
    (n : ℕ)
    → (backoff_base (pos n) ≡ min (backoff_initial * 2 ^ n) backoff_max)
      × (backoff_base (negsuc n) ≡ backoff_initial)
unfolding backoff_base
backoff_base_closed n = (ground (arith, grow-eq-min n backoff_initial), ground arith)

-- The jitter is at most a fifth of the base delay, up or down.
jittered_bounds :
    (base d : ℕ)
    → d < draw_range
    → (4 * base ≤ 5 * jittered base d + 5) × (5 * jittered base d ≤ 6 * base)
jittered_bounds base d h = grind arith

backoff_base_small :
    (a : ℤ)
    → a <ℤ pos 3
    → (backoff_initial ≤ backoff_base a) × (backoff_base a ≤ 4 * backoff_initial)
unfolding backoff_base
backoff_base_small (pos zero) h = omega arith
backoff_base_small (pos (suc zero)) h = omega arith
backoff_base_small (pos (suc (suc zero))) h = omega arith
backoff_base_small (pos (suc (suc (suc n)))) h = absurd (omega arith)
backoff_base_small (negsuc n) h = omega (arith, (backoff_base_closed n).1)

-- The delay after a retry is that of some attempt below 3.
degraded_or_not :
    (k : ErrorClass) (b : Bool) (c : DecideContext)
    → (decide_class k b c).action ≡ retry
    → ((decide_class k b c).backoff_hint ≡ jittered (backoff_base (pos 1)) c.draw)
      ⊎ ((c.attempt <ℤ pos 3)
          × ((decide_class k b c).backoff_hint ≡ jittered (backoff_base c.attempt) c.draw))
unfolding decide_class backoff_for
degraded_or_not k b c h = ground arith

class_hint :
    (k : ErrorClass) (b : Bool) (c : DecideContext)
    → (decide_class k b c).action ≡ retry
    → (a : ℤ) × (a <ℤ pos 3)
      × ((decide_class k b c).backoff_hint ≡ jittered (backoff_base a) c.draw)
unfolding decide_class backoff_for
class_hint k b c h = elim (degraded_or_not k b c h) [
  | inl e ↦ (pos 1, omega arith, e)
  | inr e ↦ (c.attempt, e.0, e.1)
]

-- Every retry that `Decide` proposes waits for between 0.8 and 4.8 seconds, whatever the draw
-- below 2^53.
pub retry-backoff_bounds :
    (e : BrainError) (c : DecideContext)
    → c.draw < draw_range
    → (decide (some e) c).action ≡ retry
    → (800_000_000 ≤ (decide (some e) c).backoff_hint)
      × ((decide (some e) c).backoff_hint ≤ 4_800_000_000)
unfolding decide
retry-backoff_bounds e c d h =
    let (a, small, hint) = class_hint e.class e.retryable _ h in
    rw hint (omega (arith, backoff_base_small a small, jittered_bounds (backoff_base a) c.draw d))
