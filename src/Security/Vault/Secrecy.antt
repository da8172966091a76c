-- ===== src/Security/Vault/Secrecy.antt =====
-- The audit log of the vault says nothing of the secrets.
use brain.Security.AuditChain.{Canonical, AuditLogger}
use brain.Prelude.Int.{pos, pos_part, ltb_ℤ, int_eq}
use brain.Prelude.{
  ℕ, ◌+◌, String, ◌≡◌, refl, sym, ap, ◌∙◌, inl, inr, true, Option, none, some, List, [], ◌∷◌, map,
  if◌then◌else◌, nat_eq, string_eq, ◌==◌, Bool-cases, Option-cases,
}
use brain.Security.Vault.{
  Fingerprints, MemVaultEntry, validate_vault_key, has_expired, is_entry, Clock, MemVault,
  new_mem_vault, audit, evict, list, evict_current, got, rotated, keys_with,
}
use brain.Prelude.Assoc.{beq_refl, lookup, insert}
use brain.Security.Vault.Audited.{
  VaultOp, get_op, delete_op, list_op, put_op, rotate_op, checked, key_of, step, run, step-checked,
}
use brain.Prelude.Text.{bytes_eq, Bytes}
use brain.Prelude.Assoc

-- An entry, a vault and a call with the secrets taken out.
abbrev blank_entry : MemVaultEntry → MemVaultEntry
blank_entry e = record e { value = "" }

abbrev blank_option : Option MemVaultEntry → Option MemVaultEntry
blank_option none = none
blank_option (some e) = some (blank_entry e)

blank_entries : List (Bytes × MemVaultEntry) → List (Bytes × MemVaultEntry)
blank_entries [] = []
blank_entries ((k, e) ∷ m) = (k, blank_entry e) ∷ blank_entries m

abbrev pub blank_op : VaultOp → VaultOp
blank_op (get_op key t) = get_op key t
blank_op (delete_op key t) = delete_op key t
blank_op (list_op prefix t) = list_op prefix t
blank_op (put_op key value ttl t) = put_op key "" ttl t
blank_op (rotate_op key value t) = rotate_op key "" t

lookup-blank_entries :
    (key : Bytes) (m : List (Bytes × MemVaultEntry))
    → Assoc.lookup key (blank_entries m) ≡ blank_option (Assoc.lookup key m)
unfolding blank_entries Assoc.lookup
lookup-blank_entries key [] = refl
lookup-blank_entries key ((k, e) ∷ m) = elim (Bool-cases (k == key)) [
  | inl q ↦ rw q refl
  | inr q ↦ rw q (lookup-blank_entries key m)
]

insert-blank_entries :
    (key : Bytes) (e : MemVaultEntry) (m : List (Bytes × MemVaultEntry))
    → blank_entries (Assoc.insert key e m) ≡ Assoc.insert key (blank_entry e) (blank_entries m)
unfolding blank_entries Assoc.insert
insert-blank_entries key e [] = refl
insert-blank_entries key e ((k, x) ∷ m) = elim (Bool-cases (k == key)) [
  | inl q ↦ rw q refl
  | inr q ↦ rw q (ap (λ l. (k, blank_entry x) ∷ l) (insert-blank_entries key e m))
]

delete-blank_entries :
    (key : Bytes) (m : List (Bytes × MemVaultEntry))
    → blank_entries (Assoc.delete key m) ≡ Assoc.delete key (blank_entries m)
unfolding blank_entries Assoc.delete
delete-blank_entries key [] = refl
delete-blank_entries key ((k, x) ∷ m) = elim (Bool-cases (k == key)) [
  | inl q ↦ rw q (delete-blank_entries key m)
  | inr q ↦ rw q (ap (λ l. (k, blank_entry x) ∷ l) (delete-blank_entries key m))
]

module _ (c : Canonical) (p : Fingerprints c) where
  blank : MemVault c p → MemVault c p
  unfolding blank_entries
  blank v = record v { entries = blank_entries v.entries }

  keys_with-blank_entries :
      (prefix : Bytes) (now : ℕ) (m : List (Bytes × MemVaultEntry))
      → keys_with c p prefix now (blank_entries m) ≡ keys_with c p prefix now m
  unfolding keys_with blank_entries
  keys_with-blank_entries prefix now [] = refl
  keys_with-blank_entries prefix now ((k, e) ∷ m) = rw (keys_with-blank_entries prefix now m) refl

  is_entry_refl : (e : MemVaultEntry) → is_entry e e ≡ true
  is_entry_refl e = elim (Option-cases e.expires_at) [
    | inl q ↦ rw (q, beq_refl e.value) refl
    | inr (t, q) ↦ rw (q, beq_refl e.value, beq_refl t) refl
  ]

  evict_found :
      (v : MemVault c p) (key : Bytes) (e : MemVaultEntry)
      → Assoc.lookup key v.entries ≡ some e
      → evict c p v key e ≡ record v { entries = Assoc.delete key v.entries }
  unfolding evict
  evict_found v key e q =
      ap (evict_current c p v key e) q
      ∙ ap (λ b. if b then record v { entries = Assoc.delete key v.entries } else v)
          (is_entry_refl e)

  abbrev with_entries : MemVault c p → List (Bytes × MemVaultEntry) → MemVault c p
  with_entries v m = record v { entries = m }

  blank-evict :
      (v : MemVault c p) (key : Bytes) (e : MemVaultEntry)
      → Assoc.lookup key v.entries ≡ some e
      → blank (evict c p v key e) ≡ evict c p (blank v) key (blank_entry e)
  unfolding blank
  blank-evict v key e q =
      ap blank (evict_found v key e q)
      ∙ ap (with_entries (blank v)) (delete-blank_entries key v.entries)
      ∙ sym (
          evict_found (blank v) key (blank_entry e)
            (lookup-blank_entries key v.entries ∙ ap blank_option q))

  blank-got :
      (v : MemVault c p) (key : Bytes) (t : Clock) (o : Option MemVaultEntry)
      → Assoc.lookup key v.entries ≡ o
      → blank (got c p v key t o).0 ≡ (got c p (blank v) key t (blank_option o)).0
  unfolding blank audit
  blank-got v key t none q = refl
  blank-got v key t (some e) q = elim (Bool-cases (has_expired e t.now)) [
    | inr x ↦ rw x refl
    | inl x ↦
        rw x (ap (λ w. audit c p w "vault_get_not_found" key [] t.at_audit) (blank-evict v key e q))
  ]

  blank-rotated :
      (v : MemVault c p) (key : Bytes) (value : String) (t : Clock) (o : Option MemVaultEntry)
      → blank (rotated c p v key value t o).0 ≡ (rotated c p (blank v) key "" t (blank_option o)).0
  unfolding blank audit
  blank-rotated v key value t none = refl
  blank-rotated v key value t (some e) = elim (Bool-cases (has_expired e t.now)) [
    | inl x ↦ rw (x, delete-blank_entries key v.entries) refl
    | inr x ↦
        let e' : MemVaultEntry = record { value = value; expires_at = e.expires_at } in
        rw (x, insert-blank_entries key e' v.entries) refl
  ]

  blank-checked :
      (v : MemVault c p) (op : VaultOp) (o : Option String)
      → blank (checked c p v op o) ≡ checked c p (blank v) (blank_op op) o
  unfolding blank audit
  blank-checked v (get_op key t) (some code) = refl
  blank-checked v (get_op key t) none =
      blank-got v key t (Assoc.lookup key v.entries) refl
      ∙ ap (λ e. (got c p (blank v) key t e).0) (sym (lookup-blank_entries key v.entries))
  blank-checked v (delete_op key t) (some code) = refl
  blank-checked v (delete_op key t) none = rw (delete-blank_entries key v.entries) refl
  blank-checked v (list_op prefix t) o =
      unfold list in (rw (keys_with-blank_entries prefix t.now v.entries) refl)
  blank-checked v (put_op key value ttl t) (some code) = refl
  blank-checked v (put_op key value ttl t) none =
      let e : MemVaultEntry = record {
        value = value;
        expires_at = if ltb_ℤ (pos 0) ttl then some (t.now + pos_part ttl) else none;
      } in
      rw (insert-blank_entries key e v.entries) refl
  blank-checked v (rotate_op key value t) (some code) = refl
  blank-checked v (rotate_op key value t) none =
      blank-rotated v key value t (Assoc.lookup key v.entries)
      ∙ ap (λ e. (rotated c p (blank v) key "" t e).0) (sym (lookup-blank_entries key v.entries))

  key_of-blank_op : (op : VaultOp) → key_of c p (blank_op op) ≡ key_of c p op
  key_of-blank_op (get_op key t) = refl
  key_of-blank_op (delete_op key t) = refl
  key_of-blank_op (list_op key t) = refl
  key_of-blank_op (put_op key value ttl t) = refl
  key_of-blank_op (rotate_op key value t) = refl

  blank-step :
      (v : MemVault c p) (op : VaultOp) → blank (step c p v op) ≡ step c p (blank v) (blank_op op)
  blank-step v op =
      ap blank (step-checked c p v op)
      ∙ blank-checked v op (validate_vault_key (key_of c p op))
      ∙ ap (λ k. checked c p (blank v) (blank_op op) (validate_vault_key k))
          (sym (key_of-blank_op op))
      ∙ sym (step-checked c p (blank v) (blank_op op))

  blank-run :
      (v : MemVault c p) (ops : List VaultOp)
      → blank (run c p v ops) ≡ run c p (blank v) (map blank_op ops)
  unfolding run
  blank-run v [] = refl
  blank-run v (op ∷ ops) =
      blank-run (step c p v op) ops ∙ ap (λ w. run c p w (map blank_op ops)) (blank-step v op)

  -- The audit log holds nothing of the secrets: two sequences of calls of a new vault, made one
  -- after another, that differ in nothing but the values that they put and rotate to leave the same
  -- log. So it holds no fingerprint of a value either, also not of those that Rotate replaces.
  pub run_secrecy :
      (auditor : Option (AuditLogger c)) (ops ops' : List VaultOp)
      → map blank_op ops ≡ map blank_op ops'
      → (run c p (new_mem_vault c p auditor) ops).auditor
        ≡ (run c p (new_mem_vault c p auditor) ops').auditor
  unfolding blank
  run_secrecy auditor ops ops' same =
      let v = new_mem_vault c p auditor in
      ap (λ (w : MemVault c p). w.auditor)
        (blank-run v ops ∙ ap (run c p (blank v)) same ∙ sym (blank-run v ops'))
