-- ===== src/Errors/Decide/Retry.antt =====
-- When `Decide` retries, what it says of the retries left, and when it reports a violation.
use brain.Prelude.{
  inr, inl, ◌⊎◌, ℕ, zero, suc, ◌≡◌, refl, ◌↔◌, Bool, true, false, Option, none, some, arith,
}
use brain.Prelude.Int.{ℤ, pos, negsuc, ◌+ℤ◌, ◌≤ℤ◌, ◌<ℤ◌}
use brain.Errors.Class.{internal_bug, ErrorClass, transient, permanent, other_class}
use brain.Errors.New.{BrainError}
use brain.Errors.Decide.{
  retry, fail, FaultPolicy, Health, degraded, quarantined, DecideContext, backoff_for,
  policy_or_default, health_or_default, decide_class, decide,
}

-- The number of attempts that a state of health allows; none is for a sidecar in quarantine.
abbrev pub retry_budget : Health → Option ℤ
retry_budget quarantined = none
retry_budget degraded = some (pos 1)
retry_budget _ = some (pos 3)

abbrev pub IsBelow : ℤ → Option ℤ → Type 0
IsBelow a none = ⊥
IsBelow a (some b) = a <ℤ b

abbrev pub MayRetry : ErrorClass → Bool → Health → ℤ → Type 0
MayRetry k b h a = (k ≡ transient) × (b ≡ true) × IsBelow a (retry_budget h)

module _ (b : Bool) (c : DecideContext) where
  class_retry→ :
      (k : ErrorClass) → (decide_class k b c).action ≡ retry → MayRetry k b c.health c.attempt
  unfolding decide_class
  class_retry→ k h = ground arith

  class_retry← :
      (k : ErrorClass) → MayRetry k b c.health c.attempt → (decide_class k b c).action ≡ retry
  unfolding decide_class
  class_retry← k h = ground arith

-- `Decide` retries exactly the errors of the transient class that are marked retryable, on a
-- sidecar that is not in quarantine, and whose attempt number is below 1 on a degraded sidecar
-- and below 3 on any other.
pub decide-retry_iff :
    (e : BrainError) (c : DecideContext)
    → ((decide (some e) c).action ≡ retry)
      ↔ MayRetry e.class e.retryable (health_or_default c.health) c.attempt
unfolding decide
decide-retry_iff e c = (class_retry→ _ _ e.class, class_retry← _ _ e.class)

-- `c.Attempt + 1`, all else unchanged.
abbrev pub next_attempt : DecideContext → DecideContext
next_attempt c = record c { attempt = c.attempt +ℤ pos 1 }

abbrev context : FaultPolicy → ℤ → Health → ℕ → ℕ → DecideContext
context p a h t d = record { fault_policy = p; attempt = a; health = h; now = t; draw = d }

-- What the retries left mean at one decision.
abbrev LeftIsExact : ErrorClass → Bool → DecideContext → Type 0
LeftIsExact k b c =
    (pos 0 ≤ℤ (decide_class k b c).max_retries)
    × (c.attempt +ℤ pos 1 +ℤ (decide_class k b c).max_retries ≤ℤ pos 3)
    × (((decide_class k b (next_attempt c)).action ≡ retry)
        ↔ (pos 0 <ℤ (decide_class k b c).max_retries))

class_left :
    (k : ErrorClass) (b : Bool) (p : FaultPolicy) (n : ℕ) (h : Health) (t d : ℕ)
    → (decide_class k b (context p (pos n) h t d)).action ≡ retry
    → LeftIsExact k b (context p (pos n) h t d)
unfolding decide_class
class_left k b p zero h t d q =
    (ground arith, ground arith, ((λ r. ground arith), (λ r. ground arith)))
class_left k b p (suc zero) h t d q =
    (ground arith, ground arith, ((λ r. ground arith), (λ r. ground arith)))
class_left k b p (suc (suc zero)) h t d q =
    (ground arith, ground arith, ((λ r. ground arith), (λ r. ground arith)))
class_left k b p (suc (suc (suc n))) h t d q = absurd (ground arith)

class_left_at :
    (k : ErrorClass) (b : Bool) (p : FaultPolicy) (a : ℤ) (h : Health) (t d : ℕ)
    → pos 0 ≤ℤ a
    → (decide_class k b (context p (a) h t d)).action ≡ retry
    → LeftIsExact k b (context p (a) h t d)
class_left_at k b p (pos n) h t d pz = class_left k b p n h t d
class_left_at k b p (negsuc n) h t d pz = absurd (omega arith)

-- At an attempt that is not negative, the retries that a retry decision promises are not
-- negative, keep the number of attempts within 3, and are exact: the decision on the next attempt
-- of the same error in the same context is a retry if and only if some are left.
pub retries_left_exact :
    (e : BrainError) (c : DecideContext)
    → pos 0 ≤ℤ c.attempt
    → (decide (some e) c).action ≡ retry
    → (pos 0 ≤ℤ (decide (some e) c).max_retries)
      × (c.attempt +ℤ pos 1 +ℤ (decide (some e) c).max_retries ≤ℤ pos 3)
      × (((decide (some e) (next_attempt c)).action ≡ retry)
          ↔ (pos 0 <ℤ (decide (some e) c).max_retries))
unfolding decide
retries_left_exact e c pz h = class_left_at e.class e.retryable _ c.attempt _ c.now c.draw pz h

-- What `Decide` reports as a breach of the error model.
abbrev pub Breach : ErrorClass → Bool → Type 0
Breach transient b = b ≡ false
Breach (other_class s) b = Unit
Breach _ b = ⊥

class_violation_iff :
    (k : ErrorClass) (b : Bool) (c : DecideContext)
    → ((decide_class k b c).violation ≡ true) ↔ Breach k b
unfolding decide_class
class_violation_iff transient b c = ((λ h. ground arith), (λ h. ground arith))
class_violation_iff _ b c = ((λ h. ground arith), (λ h. ground arith))

class_violation_fails :
    (k : ErrorClass) (b : Bool) (c : DecideContext)
    → ((decide_class k b c).violation ≡ false) ⊎ ((decide_class k b c).action ≡ fail)
unfolding decide_class
class_violation_fails transient true c = inl (ground arith)
class_violation_fails transient false c = inr refl
class_violation_fails permanent b c = inl (ground arith)
class_violation_fails internal_bug b c = inl (ground arith)
class_violation_fails (other_class s) b c = inr refl
class_violation_fails _ b c = inl refl

-- `Decide` reports a violation exactly for a class that is not one of the six, and for a
-- transient error that is marked not retryable; a violation always fails the task.
pub decide-violation_iff :
    (e : BrainError) (c : DecideContext)
    → (((decide (some e) c).violation ≡ true) ↔ Breach e.class e.retryable)
      × (((decide (some e) c).violation ≡ false) ⊎ ((decide (some e) c).action ≡ fail))
unfolding decide
decide-violation_iff e c =
    (class_violation_iff e.class e.retryable _, class_violation_fails e.class e.retryable _)

class_ignores :
    (k : ErrorClass) (b : Bool) (p p' : FaultPolicy) (a : ℤ) (h : Health) (t t' d : ℕ)
    → record (decide_class k b (context p a h t d)) { reason_log = "" }
      ≡ record (decide_class k b (context p' a h t' d)) { reason_log = "" }
unfolding decide_class backoff_for
class_ignores transient b p p' a h t t' d = ground arith
class_ignores permanent b p p' a h t t' d = ground arith
class_ignores _ b p p' a h t t' d = refl

-- The fault policy and the clock have no say in the action: two contexts with the same attempt,
-- draw and health give decisions that differ at most in the logged reason.
decide_ignores_policy :
    (e : BrainError) (c : DecideContext) (p : FaultPolicy) (t : ℕ)
    → record (decide (some e) c) { reason_log = "" }
      ≡ record (decide (some e) (record c { fault_policy = p; now = t })) { reason_log = "" }
unfolding decide
decide_ignores_policy e c p t =
    class_ignores e.class e.retryable (policy_or_default c.fault_policy) (policy_or_default p)
      c.attempt (health_or_default c.health) c.now t c.draw
