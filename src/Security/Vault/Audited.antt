-- ===== src/Security/Vault/Audited.antt =====
-- The audit log of the vault, over every sequence of calls.
use brain.Prelude.Result.{err, ok, Result}
use brain.Security.AuditChain.{Canonical, AuditEvent, AuditLogger, new_logger, emit, verify}
use brain.Security.AuditChain.Chain.{emit_all, emitted_verifies}
use brain.Prelude.Int.{ℤ, int_eq}
use brain.Prelude.{
  ℕ, String, ◌≡◌, refl, ap, ◌∙◌, inl, inr, Option, none, some, List, [], ◌∷◌, if◌then◌else◌, nat_eq,
  string_eq, ◌==◌, Bool-cases,
}
use brain.Security.Vault.{
  checked_rotate, checked_put_with_ttl, checked_delete, got, Result, evict_current, checked_get,
  audit_to, rotated, Fingerprints, MemVaultEntry, validate_vault_key, has_expired, is_entry, Clock,
  MemVault, new_mem_vault, audit_event, audit, evict, get, put_with_ttl, delete, rotate, list,
}
use brain.Prelude.Text.{Bytes, bytes_eq}
use brain.Prelude.Assoc
use brain.Errors.Codes

-- A call, with the times that the clock shows in it.
pub data VaultOp : Type 0 where
  get_op delete_op list_op : Bytes → Clock → VaultOp
  put_op : Bytes → String → ℤ → Clock → VaultOp
  rotate_op : Bytes → String → Clock → VaultOp

module _ (c : Canonical) (p : Fingerprints c) where
  -- A call, given what the test of its key has shown.
  abbrev pub checked : MemVault c p → VaultOp → Option String → MemVault c p
  checked v (get_op key t) o = (checked_get c p v key t o).0
  checked v (delete_op key t) o = (checked_delete c p v key t o).0
  checked v (list_op prefix t) o = (list c p v prefix t).0
  checked v (put_op key value ttl t) o = (checked_put_with_ttl c p v key value ttl t o).0
  checked v (rotate_op key value t) o = (checked_rotate c p v key value t o).0

  abbrev pub key_of : VaultOp → Bytes
  key_of (get_op key t) = key
  key_of (delete_op key t) = key
  key_of (list_op key t) = key
  key_of (put_op key value ttl t) = key
  key_of (rotate_op key value t) = key

  pub step : MemVault c p → VaultOp → MemVault c p
  unfolding get put_with_ttl delete rotate list
  step v (get_op key t) = (get c p v key t).0
  step v (delete_op key t) = (delete c p v key t).0
  step v (list_op prefix t) = (list c p v prefix t).0
  step v (put_op key value ttl t) = (put_with_ttl c p v key value ttl t).0
  step v (rotate_op key value t) = (rotate c p v key value t).0

  unfoldable pub run : MemVault c p → List VaultOp → MemVault c p
  unfolding step
  run v [] = v
  run v (op ∷ ops) = run (step v op) ops

  -- One call writes at most one event: the log afterwards.
  abbrev Audits : MemVault c p → MemVault c p → Type 0
  Audits v v' = (ev : AuditEvent c) × (v'.auditor ≡ audit_to c p v.auditor ev)

  pub step-checked :
      (v : MemVault c p) (op : VaultOp) → step v op ≡ checked v op (validate_vault_key (key_of op))
  unfolding step get put_with_ttl delete rotate
  step-checked v (get_op key t) = refl
  step-checked v (delete_op key t) = refl
  step-checked v (list_op key t) = refl
  step-checked v (put_op key value ttl t) = refl
  step-checked v (rotate_op key value t) = refl

  evict_current-auditor :
      (v : MemVault c p) (key : Bytes) (e : MemVaultEntry) (o : Option MemVaultEntry)
      → (evict_current c p v key e o).auditor ≡ v.auditor
  evict_current-auditor v key e none = refl
  evict_current-auditor v key e (some cur) = elim (Bool-cases (is_entry cur e)) [
    | inl q ↦ rw q refl
    | inr q ↦ rw q refl
  ]

  evict-auditor :
      (v : MemVault c p) (key : Bytes) (e : MemVaultEntry) → (evict c p v key e).auditor ≡ v.auditor
  unfolding evict
  evict-auditor v key e = evict_current-auditor v key e (Assoc.lookup key v.entries)

  got-Audits :
      (v : MemVault c p) (key : Bytes) (t : Clock) (o : Option MemVaultEntry)
      → Audits v (got c p v key t o).0
  unfolding audit
  got-Audits v key t none = (_, refl)
  got-Audits v key t (some e) = elim (Bool-cases (has_expired e t.now)) [
    | inl q ↦
        let ev = audit_event c p "vault_get_not_found" key [] t.at_audit in
        rw q (ev, ap (λ a. audit_to c p a ev) (evict-auditor v key e))
    | inr q ↦ rw q (_, refl)
  ]

  rotated-Audits :
      (v : MemVault c p) (key : Bytes) (value : String) (t : Clock) (o : Option MemVaultEntry)
      → Audits v (rotated c p v key value t o).0
  unfolding audit
  rotated-Audits v key value t none = (_, refl)
  rotated-Audits v key value t (some e) = elim (Bool-cases (has_expired e t.now)) [
    | inl q ↦ rw q (_, refl)
    | inr q ↦ rw q (_, refl)
  ]

  checked-Audits :
      (v : MemVault c p) (op : VaultOp) (valid : Option String) → Audits v (checked v op valid)
  unfolding audit
  checked-Audits v (get_op key t) none = got-Audits v key t (Assoc.lookup key v.entries)
  checked-Audits v (get_op key t) (some code) = (_, refl)
  checked-Audits v (delete_op key t) none = (_, refl)
  checked-Audits v (delete_op key t) (some code) = (_, refl)
  checked-Audits v (list_op key t) o = unfold list in (_, refl)
  checked-Audits v (put_op key value ttl t) none = (_, refl)
  checked-Audits v (put_op key value ttl t) (some code) = (_, refl)
  checked-Audits v (rotate_op key value t) none =
      rotated-Audits v key value t (Assoc.lookup key v.entries)
  checked-Audits v (rotate_op key value t) (some code) = (_, refl)

  step-Audits : (v : MemVault c p) (op : VaultOp) → Audits v (step v op)
  step-Audits v op =
      let (ev, e) = checked-Audits v op (validate_vault_key (key_of op)) in
      (ev, ap (λ (v' : MemVault c p). v'.auditor) (step-checked v op) ∙ e)

  run-emit_all :
      (v : MemVault c p) (ops : List VaultOp) (l : AuditLogger c)
      → v.auditor ≡ some l
      → (evs : List (Option (AuditEvent c))) × ((run v ops).auditor ≡ some (emit_all c l evs))
  unfolding run emit_all audit_to
  run-emit_all v [] l e = ([], e)
  run-emit_all v (op ∷ ops) l e =
      let (ev, h) = step-Audits v op in
      let (evs, q) =
        run-emit_all (step v op) ops (emit c l (some ev)).0 (h ∙ ap (λ a. audit_to c p a ev) e) in
      (some ev ∷ evs, q)

  -- Whatever calls are made of a vault with a new audit log, refused ones included, the log verifies.
  pub run-verify :
      (ops : List VaultOp)
      → (l : AuditLogger c) × ((run (new_mem_vault c p (some (new_logger c))) ops).auditor ≡ some l)
        × (verify c l ≡ none)
  run-verify ops =
      let (evs, e) =
        run-emit_all (new_mem_vault c p (some (new_logger c))) ops (new_logger c)
          (unfold new_mem_vault in refl) in
      (emit_all c (new_logger c) evs, e, (emitted_verifies c evs).0)

  -- The error of a call, given what the test of its key has shown.
  abbrev error_in : Result String → Option String
  error_in (ok value) = none
  error_in (err code) = some code

  abbrev pub checked_error : MemVault c p → VaultOp → Option String → Option String
  checked_error v (get_op key t) o = error_in (checked_get c p v key t o).1
  checked_error v (delete_op key t) o = (checked_delete c p v key t o).1
  checked_error v (list_op prefix t) o = none
  checked_error v (put_op key value ttl t) o = (checked_put_with_ttl c p v key value ttl t o).1
  checked_error v (rotate_op key value t) o = (checked_rotate c p v key value t o).1

  -- The error that a call returns.
  pub error_of : MemVault c p → VaultOp → Option String
  unfolding get put_with_ttl delete rotate
  error_of v (get_op key t) = error_in (get c p v key t).1
  error_of v (delete_op key t) = (delete c p v key t).1
  error_of v (list_op prefix t) = none
  error_of v (put_op key value ttl t) = (put_with_ttl c p v key value ttl t).1
  error_of v (rotate_op key value t) = (rotate c p v key value t).1

  abbrev time_of : VaultOp → ℕ
  time_of (get_op key t) = t.at_audit
  time_of (delete_op key t) = t.at_audit
  time_of (list_op key t) = t.at_audit
  time_of (put_op key value ttl t) = t.at_audit
  time_of (rotate_op key value t) = t.at_audit

  abbrev unless_missing : String → String → String → String
  unless_missing code missing rejected =
      if code == Codes.record_not_found then missing else rejected

  -- The action that the log is to show of a call, by the error that the call returns.
  abbrev pub action_of : VaultOp → Option String → String
  action_of (get_op key t) none = "vault_get_success"
  action_of (get_op key t) (some code) =
      unless_missing code "vault_get_not_found" "vault_get_rejected"
  action_of (delete_op key t) none = "vault_delete"
  action_of (delete_op key t) (some code) = "vault_delete_rejected"
  action_of (list_op prefix t) error = "vault_list"
  action_of (put_op key value ttl t) none = "vault_put"
  action_of (put_op key value ttl t) (some code) = "vault_put_rejected"
  action_of (rotate_op key value t) none = "vault_rotate"
  action_of (rotate_op key value t) (some code) =
      unless_missing code "vault_rotate_not_found" "vault_rotate_rejected"

  -- The log has got one event of a call, for its key and at its time, of the action that goes with
  -- the error.
  pub IsAudited : MemVault c p → VaultOp → MemVault c p → Option String → Type 0
  IsAudited v op v' error =
      (extra : List (String × c.Value)) × (v'.auditor
        ≡ audit_to c p v.auditor
            (audit_event c p (action_of op error) (key_of op) extra (time_of op)))
