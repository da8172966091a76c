-- ===== src/Security/Vault.antt =====
-- security/mem_vault.go: the vault of secrets in memory, with its audit log. A key is its bytes, a
-- time is in nanoseconds, and an `ExpiresAt` that is zero is `none`. A call is given what the clock
-- shows when it looks at an expiry and when it writes the audit event. A map's order of iteration,
-- which `List` passes on, is the order of the association list. The first 12 hex digits of SHA-256,
-- and a text or a number as a value of an event's payload, are a parameter.
pub mod Expiry
pub mod Audited
pub mod Secrecy
mod Tests
use brain.Prelude.{
  ℕ, ◌+◌, String, Bool, true, false, ◌&&◌, ◌||◌, not, Option, none, some, List, [], ◌∷◌, leb,
  if◌then◌else◌, nat_eq, string_eq, ◌==◌, concat, is_nil, length,
}
use brain.Prelude.Int.{ℤ, pos, pos_part, ltb_ℤ, int_eq}
use brain.Prelude.Result.{Result, ok, err}
use brain.Prelude.Text.{bytes_eq, Bytes, trim_space}
use brain.Prelude.Assoc
use brain.Errors.Codes
use brain.Security.AuditChain.{Canonical, AuditEvent, AuditLogger, emit}

pub record Fingerprints (c : Canonical) : Type 0 where
  pub short_sha256_hex : Bytes → String
  pub text_value : String → c.Value
  pub int_value : ℕ → c.Value

-- `memVaultEntry`
pub record MemVaultEntry : Type 0 where
  pub value : String
  pub expires_at : Option ℕ

-- `strings.ContainsAny(key, "\n\r")`
pub has_line_break : Bytes → Bool
has_line_break [] = false
has_line_break (b ∷ s) = b == 10 || b == 13 || has_line_break s

pub validate_vault_key : Bytes → Option String
unfolding has_line_break
validate_vault_key key =
    if is_nil key
    then some Codes.tool_input_invalid
    else if not (trim_space key == key)
    then some Codes.tool_input_invalid
    else if has_line_break key
    then some Codes.tool_input_invalid
    else none

-- `!ent.ExpiresAt.IsZero() && !now.Before(ent.ExpiresAt)`
abbrev pub has_expired : MemVaultEntry → ℕ → Bool
has_expired e now = elim e.expires_at [ none ↦ false | some t ↦ leb t now ]

abbrev is_time : Option ℕ → Option ℕ → Bool
is_time none none = true
is_time (some a) (some b) = a == b
is_time none (some b) = false
is_time (some a) none = false

-- `cur == ent`
abbrev pub is_entry : MemVaultEntry → MemVaultEntry → Bool
is_entry a b = a.value == b.value && is_time a.expires_at b.expires_at

-- `strings.HasPrefix(k, prefix)`
pub starts_with : Bytes → Bytes → Bool
starts_with [] k = true
starts_with (a ∷ prefix) [] = false
starts_with (a ∷ prefix) (b ∷ k) = a == b && starts_with prefix k

-- What the clock shows in a call.
pub record Clock : Type 0 where
  pub now : ℕ
  pub at_audit : ℕ

module _ (c : Canonical) (p : Fingerprints c) where
  open c use {Value}
  open p use {short_sha256_hex, text_value, int_value}

  pub record MemVault : Type 0 where
    pub entries : List (Bytes × MemVaultEntry)
    pub auditor : Option (AuditLogger c)

  pub new_mem_vault : Option (AuditLogger c) → MemVault
  new_mem_vault auditor = record { entries = []; auditor = auditor }

  abbrev key_fingerprint : Bytes → String
  key_fingerprint key = concat "sha256:" (short_sha256_hex key)

  -- The event that `audit` makes.
  abbrev pub audit_event : String → Bytes → List (String × Value) → ℕ → AuditEvent c
  audit_event action key extra now = record {
    event_id = "";
    actor = "system";
    action = action;
    resource = concat "vault/" (key_fingerprint key);
    timestamp = now;
    prev_hash = "";
    self_hash = "";
    payload = ("key_fingerprint", text_value (key_fingerprint key)) ∷ extra;
  }

  audit_to : Option (AuditLogger c) → AuditEvent c → Option (AuditLogger c)
  audit_to none ev = none
  audit_to (some l) ev = some (emit c l (some ev)).0

  -- `audit`; the error of Emit is dropped.
  pub audit : MemVault → String → Bytes → List (String × Value) → ℕ → MemVault
  unfolding audit_to
  audit v action key extra now = record v {
    auditor = audit_to v.auditor (audit_event action key extra now);
  }

  abbrev reason : String → List (String × Value)
  reason s = ("reason", text_value s) ∷ []

  abbrev evict_current : MemVault → Bytes → MemVaultEntry → Option MemVaultEntry → MemVault
  evict_current v key e none = v
  evict_current v key e (some cur) =
      if is_entry cur e then record v { entries = Assoc.delete key v.entries } else v

  -- The second half of `Get`'s lazy eviction: only the entry that was read is deleted.
  pub evict : MemVault → Bytes → MemVaultEntry → MemVault
  evict v key e = evict_current v key e (Assoc.lookup key v.entries)

  abbrev got : MemVault → Bytes → Clock → Option MemVaultEntry → MemVault × Result String
  got v key t none = (audit v "vault_get_not_found" key [] t.at_audit, err Codes.record_not_found)
  got v key t (some e) =
      if has_expired e t.now
      then (
        audit (evict v key e) "vault_get_not_found" key [] t.at_audit,
        err Codes.record_not_found,
      )
      else (audit v "vault_get_success" key [] t.at_audit, ok e.value)

  abbrev checked_get : MemVault → Bytes → Clock → Option String → MemVault × Result String
  checked_get v key t (some code) =
      (audit v "vault_get_rejected" key (reason "invalid_key") t.at_audit, err code)
  checked_get v key t none = got v key t (Assoc.lookup key v.entries)

  pub get : MemVault → Bytes → Clock → MemVault × Result String
  get v key t = checked_get v key t (validate_vault_key key)

  -- `PutWithTTL`; `Put` is the one with 0.
  abbrev checked_put_with_ttl :
      MemVault → Bytes → String → ℤ → Clock → Option String → MemVault × Option String
  checked_put_with_ttl v key value ttl t (some code) =
      (audit v "vault_put_rejected" key (reason "invalid_key") t.at_audit, some code)
  checked_put_with_ttl v key value ttl t none =
      let e : MemVaultEntry = record {
        value = value;
        expires_at = if ltb_ℤ (pos 0) ttl then some (t.now + pos_part ttl) else none;
      } in
      (
        audit (record v { entries = Assoc.insert key e v.entries }) "vault_put" key [] t.at_audit,
        none,
      )

  pub put_with_ttl : MemVault → Bytes → String → ℤ → Clock → MemVault × Option String
  put_with_ttl v key value ttl t = checked_put_with_ttl v key value ttl t (validate_vault_key key)

  abbrev checked_delete : MemVault → Bytes → Clock → Option String → MemVault × Option String
  checked_delete v key t (some code) =
      (audit v "vault_delete_rejected" key (reason "invalid_key") t.at_audit, some code)
  checked_delete v key t none = (
    audit (record v { entries = Assoc.delete key v.entries }) "vault_delete" key [] t.at_audit,
    none,
  )

  pub delete : MemVault → Bytes → Clock → MemVault × Option String
  delete v key t = checked_delete v key t (validate_vault_key key)

  abbrev rotated :
      MemVault → Bytes → String → Clock → Option MemVaultEntry → MemVault × Option String
  rotated v key value t none =
      (audit v "vault_rotate_not_found" key [] t.at_audit, some Codes.record_not_found)
  rotated v key value t (some e) =
      if has_expired e t.now
      then (
        audit (record v { entries = Assoc.delete key v.entries }) "vault_rotate_not_found" key
            (reason "expired") t.at_audit,
        some Codes.record_not_found,
      )
      else (
        audit
            (record v {
              entries =
                  Assoc.insert key (record { value = value; expires_at = e.expires_at }) v.entries;
            })
            "vault_rotate" key [] t.at_audit,
        none,
      )

  abbrev checked_rotate :
      MemVault → Bytes → String → Clock → Option String → MemVault × Option String
  checked_rotate v key value t (some code) =
      (audit v "vault_rotate_rejected" key (reason "invalid_key") t.at_audit, some code)
  checked_rotate v key value t none = rotated v key value t (Assoc.lookup key v.entries)

  pub rotate : MemVault → Bytes → String → Clock → MemVault × Option String
  rotate v key value t = checked_rotate v key value t (validate_vault_key key)

  -- The keys of the entries that have not expired, with the prefix.
  keys_with : Bytes → ℕ → List (Bytes × MemVaultEntry) → List Bytes
  unfolding starts_with
  keys_with prefix now [] = []
  keys_with prefix now ((k, e) ∷ m) =
      let rest = keys_with prefix now m in
      if has_expired e now then rest else if starts_with prefix k then k ∷ rest else rest

  pub list : MemVault → Bytes → Clock → MemVault × List Bytes
  unfolding keys_with
  list v prefix t =
      let ks = keys_with prefix t.now v.entries in
      (audit v "vault_list" prefix (("count", int_value (length ks)) ∷ []) t.at_audit, ks)
