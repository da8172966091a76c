-- ===== src/Errors/New/Classified.antt =====
-- The class of a new or wrapped error is the registry's, and `Decide` finds no breach in it.
use brain.Errors.Decide.Retry.{decide-violation_iff, decide-retry_iff, Breach}
use brain.Prelude.Assoc
use brain.Errors.Registry.{lookup as find, ErrorRegistry, default_registry}
use brain.Errors.Registry.Catalogue.{is_transient, IsConsistentRow, default_registry-IsConsistent}
use brain.Errors.Decide.{retry, DecideContext, decide}
use brain.Errors.New.{
  is_known_class, Bool, BrainError, metadata_or_zero, new_shell, ErrorOption, with_message,
  with_suggestions, with_retryable, with_class, with_cause, with_debug_flags, apply_option,
  apply_options, GoError, new, wrap,
}
use brain.Errors.Class.{transient, other_class, ErrorClass, internal_bug, CodeMetadata, row}
use brain.Prelude.{
  ◌≢◌, ◌⊎◌, ◌∙◌, ap, Bool, sym, Bool-cases, ℕ, String, ◌≡◌, refl, inl, inr, true, false, Option,
  none, some, List, [], ◌∷◌, arith, nat_eq, string_eq, All,
}
use brain.Errors.Codes
use mathlib.Core.Bool.{false≢true}

-- An option that leaves the class and the retry flag alone.
abbrev pub KeepsClass : ErrorOption → Type 0
KeepsClass (with_retryable b) = ⊥
KeepsClass (with_class c) = ⊥
KeepsClass _ = Unit

abbrev row_or : Option CodeMetadata → CodeMetadata → CodeMetadata
row_or none d = d
row_or (some md) d = md

-- The row that the constructors use for a code: its own, or that of `CodeUnknown`.
pub entry : ErrorRegistry → String → CodeMetadata
entry r code = row_or (find r code) (metadata_or_zero (find r Codes.unknown))

abbrev pub Follows : CodeMetadata → BrainError → Type 0
Follows md e = (e.class ≡ md.class) × (e.retryable ≡ md.retryable) × (e.error_code ≡ md.code)

apply_option-Follows :
    (md : CodeMetadata) (o : ErrorOption) (e : BrainError)
    → KeepsClass o
    → Follows md e
    → Follows md (apply_option o e)
unfolding apply_option
apply_option-Follows md (with_message x) e k h = ground arith
apply_option-Follows md (with_suggestions []) e k h = h
apply_option-Follows md (with_suggestions (x ∷ xs)) e k h = h
apply_option-Follows md (with_debug_flags []) e k h = h
apply_option-Follows md (with_debug_flags (x ∷ xs)) e k h = h
apply_option-Follows md (with_cause none) e k h = h
apply_option-Follows md (with_cause (some x)) e k h = h
apply_option-Follows md (with_retryable x) e k h = absurd k
apply_option-Follows md (with_class x) e k h = absurd k
apply_option-Follows md _ e k h = ground arith

apply_options-Follows :
    (md : CodeMetadata) (opts : List ErrorOption) (e : BrainError)
    → All KeepsClass opts
    → Follows md e
    → Follows md (apply_options opts e)
unfolding apply_options
apply_options-Follows md [] e k h = h
apply_options-Follows md (o ∷ os) e k h =
    apply_options-Follows md os (apply_option o e) k.1 (apply_option-Follows md o e k.0 h)

new_shell-Follows : (r : ErrorRegistry) (code : String) → Follows (entry r code) (new_shell r code)
unfolding new_shell entry
new_shell-Follows r code = ground arith

module _ (r : ErrorRegistry) (fingerprint : BrainError → String) (now : ℕ) where
  -- With options that leave the class and the retry flag alone, `New` gives the class, the flag and
  -- the code of the code's row in the registry, or of the row of `CodeUnknown` if it has none.
  new-Follows :
      (code : String) (opts : List ErrorOption)
      → All KeepsClass opts
      → Follows (entry r code) (new r fingerprint now code opts)
  unfolding new
  new-Follows code opts k = apply_options-Follows (entry r code) opts _ k (new_shell-Follows r code)

  -- So does `Wrap`, whatever error it wraps.
  pub wrap-Follows :
      (err : Option GoError) (code : String) (opts : List ErrorOption)
      → All KeepsClass opts
      → Follows (entry r code) (wrap r fingerprint now err code opts)
  unfolding wrap
  wrap-Follows none code opts k =
      apply_options-Follows (entry r code) opts _ k (new_shell-Follows r code)
  wrap-Follows (some g) code opts k =
      apply_options-Follows (entry r code) opts _ k (new_shell-Follows r code)

find-unknown : find default_registry Codes.unknown ≡ some (row Codes.unknown internal_bug false)
unfolding default_registry find Assoc.lookup
find-unknown = refl

row_or-IsConsistentRow :
    (code : String) (o : Option CodeMetadata)
    → find default_registry code ≡ o
    → IsConsistentRow (row_or o (row Codes.unknown internal_bug false))
row_or-IsConsistentRow code none e = (refl, refl)
row_or-IsConsistentRow code (some md) e = (default_registry-IsConsistent.row_at code md e).1

entry-IsConsistentRow : (code : String) → IsConsistentRow (entry default_registry code)
unfolding entry
entry-IsConsistentRow code = rw find-unknown (row_or-IsConsistentRow code _ refl)

consistent_no_Breach :
    (k : ErrorClass) (b : Bool) → is_known_class k ≡ true → b ≡ is_transient k → Breach k b → ⊥
consistent_no_Breach transient b known e x = cc
consistent_no_Breach (other_class s) b known e x = cc
consistent_no_Breach _ b known e x = x

no_breach :
    (md : CodeMetadata) (e : BrainError) (c : DecideContext)
    → IsConsistentRow md
    → Follows md e
    → (decide (some e) c).violation ≡ false
no_breach md e c ok f = elim (Bool-cases (decide (some e) c).violation) [
  | inl v ↦ absurd (
      consistent_no_Breach e.class e.retryable (ap is_known_class f.0 ∙ ok.0)
        (f.1 ∙ ok.1 ∙ sym (ap is_transient f.0)) ((decide-violation_iff e c).0.0 v))
  | inr v ↦ v
]

not_retried :
    (md : CodeMetadata) (e : BrainError) (c : DecideContext)
    → Follows md e
    → md.retryable ≡ false
    → (decide (some e) c).action ≢ retry
not_retried md e c f r h = absurd (false≢true (sym r ∙ sym f.1 ∙ ((decide-retry_iff e c).0 h).1))

retryable_or_not :
    (md : CodeMetadata) (e w : BrainError) (c : DecideContext)
    → Follows md e
    → Follows md w
    → (md.retryable ≡ true)
      ⊎ (((decide (some e) c).action ≢ retry) × ((decide (some w) c).action ≢ retry))
retryable_or_not md e w c f g = elim (Bool-cases md.retryable) [
  | inl r ↦ inl r
  | inr r ↦ inr (not_retried md e c f r, not_retried md w c g r)
]

-- An error made by `New` or `Wrap` over the default registry, for any code, reserved or not, with
-- options that leave its class and retry flag alone, is no breach of the error model: `Decide`
-- reports no violation for the one or the other, and it retries either of them only if the registry marks the code retryable.
pub decide-new_no_violation :
    (fingerprint : BrainError → String) (now : ℕ) (err : Option GoError) (code : String)
    (opts : List ErrorOption) (c : DecideContext)
    → All KeepsClass opts
    → let e = new default_registry fingerprint now code opts in
      let w = wrap default_registry fingerprint now err code opts in
      ((decide (some e) c).violation ≡ false)
      × ((decide (some w) c).violation ≡ false)
      × (((entry default_registry code).retryable ≡ true)
          ⊎ (((decide (some e) c).action ≢ retry) × ((decide (some w) c).action ≢ retry)))
decide-new_no_violation fp now err code opts c k =
    let f = new-Follows default_registry fp now code opts k in
    let g = wrap-Follows default_registry fp now err code opts k in
    let ok = entry-IsConsistentRow code in
    (no_breach _ _ c ok f, no_breach _ _ c ok g, retryable_or_not _ _ _ c f g)
