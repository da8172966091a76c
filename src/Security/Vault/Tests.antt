-- ===== src/Security/Vault/Tests.antt =====
-- A vault with one secret that expires.
use brain.Prelude.Text.{Bytes, is_bytes, bytes_eq, drop, trim_front, trim_space}
use brain.Prelude.Assoc.{lookup, insert, delete}
use brain.Prelude.{ℕ, String, ◌≡◌, refl, none, some, List, [], ◌∷◌, map, nat_eq, string_eq}
use brain.Prelude.Int.{pos, int_eq}
use brain.Prelude.Result.{ok, err}
use brain.Errors.Codes
use brain.Security.AuditChain.{Canonical, new_logger}
use brain.Security.Vault.{
  audit_to, Fingerprints, MemVaultEntry, has_line_break, validate_vault_key, Clock, MemVault,
  new_mem_vault, audit, evict, get, put_with_ttl,
}
use brain.Security.Vault.Audited.{VaultOp, get_op, delete_op, list_op, put_op, rotate_op, run}
use brain.Security.Vault.Expiry.{get-put_with_ttl}
use brain.Security.Vault.Secrecy.{run_secrecy}

abbrev plain_text : Canonical
plain_text = record {
  Value = String;
  sha256_hex = λ s. s;
  sort_strings = λ xs. xs;
  marshal = λ m. some "{...}";
  format_utc = λ t. "T";
}

abbrev no_fingerprints : Fingerprints plain_text
no_fingerprints = record {
  short_sha256_hex = λ key. "0123456789ab";
  text_value = λ s. s;
  int_value = λ n. "n";
}

abbrev a_key : Bytes
a_key = 107 ∷ []

abbrev other_key : Bytes
other_key = 108 ∷ []

abbrev at : ℕ → Clock
at t = record { now = t; at_audit = t }

abbrev empty_vault : MemVault plain_text no_fingerprints
empty_vault = record { entries = []; auditor = none }

abbrev one_secret : MemVault plain_text no_fingerprints
one_secret = (put_with_ttl plain_text no_fingerprints empty_vault a_key "s" (pos 5) (at 10)).0

expires :
    map (λ (t : ℕ). (get plain_text no_fingerprints one_secret a_key (at t)).1) (14 ∷ 15 ∷ [])
    ≡ ok "s" ∷ err Codes.record_not_found ∷ []
unfolding get put_with_ttl audit audit_to validate_vault_key has_line_break evict lookup insert
    delete is_bytes trim_space trim_front drop
expires = refl

get-put_with_ttl_example : (get plain_text no_fingerprints one_secret a_key (at 14)).1 ≡ ok "s"
unfolding validate_vault_key has_line_break is_bytes trim_space trim_front drop
get-put_with_ttl_example =
    get-put_with_ttl plain_text no_fingerprints empty_vault a_key a_key "s" (pos 5) (at 10) (at 14)
      refl refl

abbrev an_entry : MemVaultEntry
an_entry = record { value = "s"; expires_at = some 15 }

abbrev renewed_entry : MemVaultEntry
renewed_entry = record { value = "s"; expires_at = some 25 }

abbrev renewed_vault : MemVault plain_text no_fingerprints
renewed_vault = record { entries = (a_key, renewed_entry) ∷ []; auditor = none }

abbrev some_calls : String → List VaultOp
some_calls s =
    put_op a_key s (pos 5) (at 1)
    ∷ get_op a_key (at 2)
    ∷ get_op [] (at 3)
    ∷ rotate_op a_key s (at 9)
    ∷ list_op [] (at 9)
    ∷ delete_op other_key (at 9)
    ∷ []

run_secrecy_example :
    (run plain_text no_fingerprints
      (new_mem_vault plain_text no_fingerprints (some (new_logger plain_text)))
      (some_calls "s")).auditor
    ≡ (run plain_text no_fingerprints
        (new_mem_vault plain_text no_fingerprints (some (new_logger plain_text)))
        (some_calls "other")).auditor
run_secrecy_example =
    run_secrecy plain_text no_fingerprints (some (new_logger plain_text)) (some_calls "s")
      (some_calls "other") refl
