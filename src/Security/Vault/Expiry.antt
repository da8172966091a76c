-- ===== src/Security/Vault/Expiry.antt =====
-- What the vault hands out, and until when.
use brain.Security.AuditChain.{Canonical}
use brain.Prelude.Result.{Result, ok, err}
use brain.Prelude.Int.{ℤ, pos, pos_part, ltb_ℤ, int_eq}
use brain.Prelude.{
  ℕ, ◌+◌, String, ◌≡◌, refl, sym, ap, ◌∙◌, ◌⊎◌, inl, inr, false, ◌&&◌, Option, none, some, leb,
  if◌then◌else◌, nat_eq, string_eq, ◌==◌, Bool-cases,
}
use brain.Security.Vault.{
  Fingerprints, MemVaultEntry, validate_vault_key, has_expired, is_entry, Clock, MemVault, audit,
  evict, get, put_with_ttl, rotate, evict_current, checked_rotate, rotated, checked_put_with_ttl,
  got,
}
use brain.Prelude.Assoc.{lookup, lookup-insert, lookup-delete, beq_refl}
use brain.Prelude.Text.{bytes_eq, Bytes}
use brain.Prelude.Assoc
use brain.Errors.Codes

-- What `Get` is to return for an entry, or for none.
abbrev pub live_value : Option MemVaultEntry → ℕ → Result String
live_value none now = err Codes.record_not_found
live_value (some e) now = if has_expired e now then err Codes.record_not_found else ok e.value

-- The entry that `PutWithTTL` stores.
abbrev pub entry_until : String → ℤ → ℕ → MemVaultEntry
entry_until value ttl now = record {
  value = value;
  expires_at = if ltb_ℤ (pos 0) ttl then some (now + pos_part ttl) else none;
}

live_until :
    (value : String) (ttl : ℤ) (start now : ℕ)
    → live_value (some (entry_until value ttl start)) now ≡ (
        if ltb_ℤ (pos 0) ttl && leb (start + pos_part ttl) now
        then err Codes.record_not_found
        else ok value)
live_until value ttl start now = elim (Bool-cases (ltb_ℤ (pos 0) ttl)) [
  | inl e ↦ rw e refl
  | inr e ↦ rw e refl
]

module _ (c : Canonical) (p : Fingerprints c) where
  got-live_value :
      (v : MemVault c p) (key : Bytes) (t : Clock) (o : Option MemVaultEntry)
      → (got c p v key t o).1 ≡ live_value o t.now
  got-live_value v key t none = refl
  got-live_value v key t (some e) = elim (Bool-cases (has_expired e t.now)) [
    | inl q ↦ rw q refl
    | inr q ↦ rw q refl
  ]

  pub get-live_value :
      (v : MemVault c p) (key : Bytes) (t : Clock)
      → validate_vault_key key ≡ none
      → (get c p v key t).1 ≡ live_value (Assoc.lookup key v.entries) t.now
  unfolding get
  get-live_value v key t valid = rw valid (got-live_value v key t (Assoc.lookup key v.entries))

  put-lookup :
      (v : MemVault c p) (key key' : Bytes) (value : String) (ttl : ℤ) (t : Clock)
      → validate_vault_key key ≡ none
      → Assoc.lookup key' (put_with_ttl c p v key value ttl t).0.entries
        ≡ (if key == key' then some (entry_until value ttl t.now) else Assoc.lookup key' v.entries)
  unfolding put_with_ttl audit
  put-lookup v key key' value ttl t valid =
      ap (λ e. Assoc.lookup key' (checked_put_with_ttl c p v key value ttl t e).0.entries) valid
      ∙ lookup-insert key key' (entry_until value ttl t.now) v.entries

  -- After a Put with a time to live, Get of the key returns the value while the clock shows a time
  -- before the Put's plus the time to live, and always if this is not positive, and CodeRecordNotFound
  -- from then on; Get of any other key returns what it would have returned without the Put.
  pub get-put_with_ttl :
      (v : MemVault c p) (key key' : Bytes) (value : String) (ttl : ℤ) (t t' : Clock)
      → validate_vault_key key ≡ none
      → validate_vault_key key' ≡ none
      → (get c p (put_with_ttl c p v key value ttl t).0 key' t').1 ≡ (
          if key == key'
          then (if ltb_ℤ (pos 0) ttl && leb (t.now + pos_part ttl) t'.now
              then err Codes.record_not_found
              else ok value)
          else (get c p v key' t').1)
  get-put_with_ttl v key key' value ttl t t' valid valid' =
      get-live_value (put_with_ttl c p v key value ttl t).0 key' t' valid'
      ∙ ap (λ o. live_value o t'.now) (put-lookup v key key' value ttl t valid)
      ∙ elim (Bool-cases (key == key')) [
        | inl e ↦ rw e (live_until value ttl t.now t'.now)
        | inr e ↦ rw e (sym (get-live_value v key' t' valid'))
      ]

  -- What Rotate does with the entry that it finds.
  abbrev Rotates :
      Bytes → String → ℕ → ℕ → Option MemVaultEntry → MemVault c p × Option String → Type 0
  Rotates key value now now' o (v', error) =
      let next = live_value (Assoc.lookup key v'.entries) now' in
      ((error ≡ none)
        × ((old : String) × (live_value o now ≡ ok old)
            × (next ≡ elim (live_value o now') [ ok o' ↦ ok value | err code ↦ err code ])))
      ⊎ ((error ≡ some Codes.record_not_found)
          × (live_value o now ≡ err Codes.record_not_found)
          × (next ≡ err Codes.record_not_found))

  renewed :
      (e : MemVaultEntry) (value : String) (now : ℕ)
      → live_value (some (record { value = value; expires_at = e.expires_at })) now
        ≡ elim (live_value (some e) now) [ ok o ↦ ok value | err code ↦ err code ]
  renewed e value now = elim (Bool-cases (has_expired e now)) [
    | inl q ↦ rw q refl
    | inr q ↦ rw q refl
  ]

  rotated-Rotates :
      (v : MemVault c p) (key : Bytes) (value : String) (t : Clock) (now' : ℕ)
      (o : Option MemVaultEntry)
      → Assoc.lookup key v.entries ≡ o
      → Rotates key value t.now now' o (rotated c p v key value t o)
  unfolding audit
  rotated-Rotates v key value t now' none q = inr (refl, refl, rw q refl)
  rotated-Rotates v key value t now' (some e) q = elim (Bool-cases (has_expired e t.now)) [
    | inl x ↦ rw (x, lookup-delete key key v.entries, beq_refl key) (inr (refl, refl, refl))
    | inr x ↦
        let e' : MemVaultEntry = record { value = value; expires_at = e.expires_at } in
        rw (x, lookup-insert key key e' v.entries, beq_refl key)
          (inl (refl, (e.value, refl, renewed e value now')))
  ]

  rotate-rotated :
      (v : MemVault c p) (key : Bytes) (value : String) (t : Clock)
      → validate_vault_key key ≡ none
      → rotate c p v key value t ≡ rotated c p v key value t (Assoc.lookup key v.entries)
  unfolding rotate
  rotate-rotated v key value t valid = ap (checked_rotate c p v key value t) valid

  -- Rotate of a key that Get would hand out replaces the value and keeps its expiry: at any time Get
  -- of the key then returns the new value exactly where it would have returned the old one, and the
  -- same error otherwise. Rotate of a key that Get would not hand out returns CodeRecordNotFound, and
  -- Get of the key does so afterwards, at any time.
  pub get-rotate :
      (v : MemVault c p) (key : Bytes) (value : String) (t t' : Clock)
      → validate_vault_key key ≡ none
      → let (v', error) = rotate c p v key value t in
        ((error ≡ none)
          × ((old : String) × ((get c p v key t).1 ≡ ok old)
              × ((get c p v' key t').1
                  ≡ elim (get c p v key t').1 [ ok o ↦ ok value | err code ↦ err code ])))
        ⊎ ((error ≡ some Codes.record_not_found)
            × ((get c p v key t).1 ≡ err Codes.record_not_found)
            × ((get c p v' key t').1 ≡ err Codes.record_not_found))
  get-rotate v key value t t' valid =
      let o = Assoc.lookup key v.entries in
      rw
        (
          rotate-rotated v key value t valid,
          get-live_value v key t valid,
          get-live_value v key t' valid,
          get-live_value (rotated c p v key value t o).0 key t' valid,
        )
        (rotated-Rotates v key value t t'.now o refl)

  evict_current_lem :
      (v : MemVault c p) (key key' : Bytes) (e cur : MemVaultEntry) (o : Option MemVaultEntry)
      → Assoc.lookup key v.entries ≡ o
      → Assoc.lookup key' v.entries ≡ some cur
      → (is_entry cur e ≡ false) ⊎ ((key == key') ≡ false)
      → Assoc.lookup key' (evict_current c p v key e o).entries ≡ some cur
  evict_current_lem v key key' e cur none q found h = found
  evict_current_lem v key key' e cur (some x) q found h = elim (Bool-cases (is_entry x e)) [
    | inr k ↦ rw k found
    | inl k ↦ elim (Bool-cases (key == key')) [
      | inr other ↦ rw (k, lookup-delete key key' v.entries, other) found
      | inl same ↦
          let here : key ≡ key' = (bytes_eq.beq_iff key key').0 same in
          let twice : some x ≡ some cur = sym q ∙ ap (λ j. Assoc.lookup j v.entries) here ∙ found in
          absurd (elim h [ inl a ↦ cc | inr b ↦ cc ])
    ]
  ]

  -- `Get` drops its lock between reading an entry and evicting it. Whatever the vault has become in
  -- between, evicting an entry takes nothing from any other key, and a value that another call has
  -- put under the key since then, or an expiry that it has set, stays.
  pub evict_lem :
      (v : MemVault c p) (key key' : Bytes) (e cur : MemVaultEntry)
      → Assoc.lookup key' v.entries ≡ some cur
      → is_entry cur e ≡ false ⊎ (key == key') ≡ false
      → Assoc.lookup key' (evict c p v key e).entries ≡ some cur
  unfolding evict
  evict_lem v key key' e cur found h =
      evict_current_lem v key key' e cur (Assoc.lookup key v.entries) refl found h
