-- ===== src/Errors/Decide.antt =====
-- errors/decide.go: the retry decision matrix and its exponential backoff.
-- Durations are in nanoseconds. The backoff's float64 values are whole numbers below 2^35, which
-- float64 holds exactly. The draw `Float64()` is k / 2^53 for the number k of `draw`, and the last
-- product is taken exactly: float64 may round it by less than one nanosecond.
pub mod Retry
pub mod Backoff
mod Tests
use brain.Prelude.{
  ℕ, zero, suc, ◌+◌, ◌*◌, ◌/◌, ◌^◌, String, Bool, true, false, Option, none, some, ◌==◌,
  if◌then◌else◌, leb, ltb, string_eq, not, concat,
}
use brain.Prelude.Int.{ℤ, pos, ltb_ℤ, leb_ℤ, ◌-ℤ◌, pos_part, wrap64}
use brain.Errors.Class.{
  ErrorClass, transient, permanent, user_fault, quota_exceeded, safety_refused, internal_bug,
  other_class,
}
use brain.Errors.New.{BrainError}

pub data Action : Type 0 where
  retry fail degrade_brain quarantine ask_human : Action

-- `type FaultPolicy string`
pub data FaultPolicy : Type 0 where
  fail_fast best_effort retry_policy : FaultPolicy
  other_policy : String → FaultPolicy

-- `type Health string`
pub data Health : Type 0 where
  healthy degraded quarantined : Health
  other_health : String → Health

pub record DecideContext : Type 0 where
  pub fault_policy : FaultPolicy
  pub attempt : ℤ
  pub health : Health
  pub now : ℕ
  pub draw : ℕ  -- the next value of `Rand`, or of the fresh source, times 2^53

pub record Decision : Type 0 where
  pub action : Action
  pub backoff_hint : ℕ
  pub max_retries : ℤ
  pub reason_log : String
  pub violation : Bool

abbrev pub backoff_initial : ℕ
backoff_initial = 1_000_000_000

abbrev pub backoff_max : ℕ
backoff_max = 30_000_000_000

abbrev pub max_retries_healthy : ℤ
max_retries_healthy = pos 3

abbrev pub max_retries_degraded : ℤ
max_retries_degraded = pos 1

abbrev pub draw_range : ℕ
draw_range = 2 ^ 53

-- A decision that sets no retry fields.
abbrev pub plain : Action → String → Bool → Decision
plain a reason v = record {
  action = a;
  backoff_hint = 0;
  max_retries = pos 0;
  reason_log = reason;
  violation = v;
}

-- The loop of `backoffFor`: the rounds left, and `base`.
pub grow : ℕ → ℕ → ℕ
grow zero base = base
grow (suc n) base =
    let rest = grow n (base * 2) in if leb backoff_max (base * 2) then backoff_max else rest

-- `backoffFor` before the jitter.
pub backoff_base : ℤ → ℕ
unfolding grow
backoff_base attempt =
    let attempt' = if ltb_ℤ attempt (pos 0) then pos 0 else attempt in
    let base = grow (pos_part attempt') backoff_initial in
    if ltb backoff_max base then backoff_max else base

-- base * (1 + (draw / 2^53 * 2 - 1) * 0.2), rounded down
abbrev pub jittered : ℕ → ℕ → ℕ
jittered base draw = base * (4 * draw_range + 2 * draw) / (5 * draw_range)

pub backoff_for : ℤ → DecideContext → ℕ
unfolding backoff_base
backoff_for attempt c = jittered (backoff_base attempt) c.draw

abbrev transient_by_health : Health → DecideContext → Decision
transient_by_health quarantined c =
    plain fail "transient on quarantined sidecar: refusing until probe" false
transient_by_health degraded c =
    if leb_ℤ max_retries_degraded c.attempt
    then plain fail "transient retry budget exhausted on degraded sidecar" false
    else record {
      action = retry;
      backoff_hint = backoff_for (pos 1) c;
      max_retries = wrap64 (wrap64 (max_retries_degraded -ℤ c.attempt) -ℤ pos 1);
      reason_log = "transient retry on degraded sidecar (1 attempt budget)";
      violation = false;
    }
transient_by_health _ c =
    if leb_ℤ max_retries_healthy c.attempt
    then plain fail "transient retry budget exhausted on healthy sidecar" false
    else record {
      action = retry;
      backoff_hint = backoff_for c.attempt c;
      max_retries = wrap64 (wrap64 (max_retries_healthy -ℤ c.attempt) -ℤ pos 1);
      reason_log = "transient retry on healthy sidecar";
      violation = false;
    }

-- `decideTransient`; the tests on `Health` are the clauses of the helper.
pub decide_transient : Bool → DecideContext → Decision
decide_transient err_retryable c =
    if not err_retryable
    then plain fail "transient + retryable=false is a class/retryable invariant violation" true
    else transient_by_health c.health c

-- `decidePermanent`
pub decide_permanent : FaultPolicy → Decision
decide_permanent best_effort =
    plain fail "permanent under best_effort: failing this task, siblings continue" false
decide_permanent retry_policy =
    plain fail "permanent under retry policy: retry does not apply to permanent class" false
decide_permanent _ = plain fail "permanent under fail_fast: immediate fail" false

-- `decideInternalBug`
pub decide_internal_bug : Health → Decision
decide_internal_bug quarantined = plain fail "internal_bug on quarantined sidecar: refused" false
decide_internal_bug degraded =
    plain quarantine "internal_bug on degraded sidecar: escalating to quarantine (P1)" false
decide_internal_bug _ = plain degrade_brain "internal_bug on healthy sidecar: degrading brain" false

-- An empty policy or health takes its default.
abbrev pub policy_or_default : FaultPolicy → FaultPolicy
policy_or_default (other_policy s) = if s == "" then fail_fast else other_policy s
policy_or_default p = p

abbrev pub health_or_default : Health → Health
health_or_default (other_health s) = if s == "" then healthy else other_health s
health_or_default h = h

-- The switch on `err.Class`.
pub decide_class : ErrorClass → Bool → DecideContext → Decision
unfolding decide_transient decide_permanent decide_internal_bug
decide_class transient b c = decide_transient b c
decide_class permanent b c = decide_permanent c.fault_policy
decide_class user_fault b c = plain fail "user_fault: returning to UI for user correction" false
decide_class quota_exceeded b c = plain fail "quota_exceeded: entering cooldown path" false
decide_class safety_refused b c =
    plain ask_human "safety_refused: escalating to human checkpoint" false
decide_class internal_bug b c = decide_internal_bug c.health
decide_class (other_class s) b c =
    plain fail (concat (concat "unknown class (" s) "): violation") true

-- `Decide`; a nil error is `none`.
pub decide : Option BrainError → DecideContext → Decision
unfolding decide_class
decide none c = plain fail "decide called with nil error (violation)" true
decide (some err) c = decide_class err.class err.retryable (record c {
  fault_policy = policy_or_default c.fault_policy;
  health = health_or_default c.health;
})
