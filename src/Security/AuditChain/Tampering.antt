-- ===== src/Security/AuditChain/Tampering.antt =====
-- What the chain detects: the hash of an event covers its fields up to the places of the separators.
use brain.Security.AuditChain.Chain.{verify→Linked, last_hash, Linked}
use brain.Security.AuditChain.{
  digest_of, canonical_payload, AuditLogger, verify, preimage, AuditEvent, canonical_hash,
  Canonical,
}
use brain.Prelude.{
  ℕ, texts_differ, Bool-cases, string_eq, ◌==◌, inl, inr, ◌⊎◌, Option, arith, length, none, some,
  refl, All, ap, List, sym, ◌∙◌, String, ◌≡◌, ◌≢◌, [], ◌∷◌,
}
use mathlib.Core.Option.{some-injective}
use mathlib.Core.Path.{subst}
use brain.Security.AuditChain.Separators.{NoSeparator, separated, separated-injective, shift}

module _ (c : Canonical) where
  -- The fields that stand before a separator have none in them.
  pub record IsPlain (ev : AuditEvent c) : Type 0 where
    pub event_id : NoSeparator ev.event_id
    pub actor : NoSeparator ev.actor
    pub action : NoSeparator ev.action
    pub resource : NoSeparator ev.resource
    pub timestamp : NoSeparator (c.format_utc ev.timestamp)
    pub prev_hash : NoSeparator ev.prev_hash

  -- What two events with one preimage share.
  pub record SameContent (ev ev' : AuditEvent c) (json json' : String) : Type 0 where
    pub event_id : ev.event_id ≡ ev'.event_id
    pub actor : ev.actor ≡ ev'.actor
    pub action : ev.action ≡ ev'.action
    pub resource : ev.resource ≡ ev'.resource
    pub timestamp : c.format_utc ev.timestamp ≡ c.format_utc ev'.timestamp
    pub prev_hash : ev.prev_hash ≡ ev'.prev_hash
    pub payload : json ≡ json'

  preimage-injective :
      (ev ev' : AuditEvent c) (json json' : String)
      → IsPlain ev
      → IsPlain ev'
      → preimage c ev json ≡ preimage c ev' json'
      → SameContent ev ev' json json'
  unfolding preimage
  preimage-injective ev ev' json json' p q e =
      let (i, e₁) = separated-injective _ _ _ _ p.event_id q.event_id e in
      let (a, e₂) = separated-injective _ _ _ _ p.actor q.actor e₁ in
      let (n, e₃) = separated-injective _ _ _ _ p.action q.action e₂ in
      let (r, e₄) = separated-injective _ _ _ _ p.resource q.resource e₃ in
      let (t, e₅) = separated-injective _ _ _ _ p.timestamp q.timestamp e₄ in
      let (h, j) = separated-injective _ _ _ _ p.prev_hash q.prev_hash e₅ in
      record {
        event_id = i;
        actor = a;
        action = n;
        resource = r;
        timestamp = t;
        prev_hash = h;
        payload = j;
      }

  -- Events whose payloads can be encoded have the same encoding, and share all else.
  pub record Same (ev ev' : AuditEvent c) : Type 0 where
    pub event_id : ev.event_id ≡ ev'.event_id
    pub actor : ev.actor ≡ ev'.actor
    pub action : ev.action ≡ ev'.action
    pub resource : ev.resource ≡ ev'.resource
    pub timestamp : ev.timestamp ≡ ev'.timestamp
    pub prev_hash : ev.prev_hash ≡ ev'.prev_hash
    pub self_hash : ev.self_hash ≡ ev'.self_hash
    pub json : String
    pub payload : canonical_payload c ev.payload ≡ some json
    pub payload' : canonical_payload c ev'.payload ≡ some json

  -- The layout with nine digits of nanoseconds writes different times differently.
  abbrev pub FormatsApart : Type 0
  FormatsApart = (t t' : ℕ) → c.format_utc t ≡ c.format_utc t' → t ≡ t'

  abbrev pub AllSame : List (AuditEvent c) → List (AuditEvent c) → Type 0
  AllSame [] [] = Unit
  AllSame (ev ∷ evs) (ev' ∷ evs') = Same ev ev' × AllSame evs evs'
  AllSame _ _ = ⊥

  digest_some :
      (ev : AuditEvent c) (o : Option String) (h : String)
      → digest_of c ev o ≡ some h
      → (json : String) × (o ≡ some json) × (c.sha256_hex (preimage c ev json) ≡ h)
  digest_some ev none h e = absurd (ground arith)
  digest_some ev (some json) h e = (json, refl, some-injective _ _ e)

  -- Two different texts with one SHA-256 hash.
  abbrev pub Collision : Type 0
  Collision = (a : String) × (b : String) × (a ≢ b) × (c.sha256_hex a ≡ c.sha256_hex b)

  sha256_hex-cases : (a b : String) → c.sha256_hex a ≡ c.sha256_hex b → (a ≡ b) ⊎ Collision
  sha256_hex-cases a b e = elim (Bool-cases (a == b)) [
    | inl same ↦ inl ((string_eq.beq_iff a b).0 same)
    | inr differ ↦ inr (a, b, texts_differ a b differ, e)
  ]

  preimage-Same :
      (ev ev' : AuditEvent c) (json json' : String)
      → FormatsApart
      → canonical_payload c ev.payload ≡ some json
      → canonical_payload c ev'.payload ≡ some json'
      → ev.self_hash ≡ ev'.self_hash
      → SameContent ev ev' json json'
      → Same ev ev'
  preimage-Same ev ev' json json' apart enc enc' hash same = record {
    event_id = same.event_id;
    actor = same.actor;
    action = same.action;
    resource = same.resource;
    timestamp = apart ev.timestamp ev'.timestamp same.timestamp;
    prev_hash = same.prev_hash;
    self_hash = hash;
    json = json;
    payload = enc;
    payload' = enc' ∙ ap some (sym same.payload);
  }

  canonical_hash-Same :
      (ev ev' : AuditEvent c)
      → FormatsApart
      → IsPlain ev
      → IsPlain ev'
      → canonical_hash c ev ≡ some ev.self_hash
      → canonical_hash c ev' ≡ some ev'.self_hash
      → ev.self_hash ≡ ev'.self_hash
      → Same ev ev' ⊎ Collision
  unfolding canonical_hash
  canonical_hash-Same ev ev' apart p q h h' e =
      let (json, enc, hash) = digest_some ev (canonical_payload c ev.payload) ev.self_hash h in
      let (json', enc', hash') =
        digest_some ev' (canonical_payload c ev'.payload) ev'.self_hash h' in
      elim (sha256_hex-cases (preimage c ev json) (preimage c ev' json') (hash ∙ e ∙ sym hash')) [
        | inl same ↦ inl (
            preimage-Same ev ev' json json' apart enc enc' e
              (preimage-injective ev ev' json json' p q same))
        | inr clash ↦ inr clash
      ]

  Linked-AllSame :
      (h h' t : String) (evs evs' : List (AuditEvent c))
      → FormatsApart
      → All IsPlain evs
      → All IsPlain evs'
      → Linked c h evs t
      → Linked c h' evs' t
      → length evs ≡ length evs'
      → ((h ≡ h') × AllSame evs evs') ⊎ Collision
  Linked-AllSame h h' t [] [] apart p q l l' n = inl (l ∙ sym l', tt)
  Linked-AllSame h h' t [] (e' ∷ evs') apart p q l l' n = absurd (omega arith)
  Linked-AllSame h h' t (e ∷ evs) [] apart p q l l' n = absurd (omega arith)
  Linked-AllSame h h' t (e ∷ evs) (e' ∷ evs') apart p q l l' n =
      elim (Linked-AllSame e.self_hash e'.self_hash t evs evs' apart p.1 q.1 l.2 l'.2
        (omega arith)) [
          | inr clash ↦ inr clash
          | inl rest ↦ elim (canonical_hash-Same e e' apart p.0 q.0 l.1 l'.1 rest.0) [
            | inr clash ↦ inr clash
            | inl same ↦ inl (sym l.0 ∙ same.prev_hash ∙ l'.0, (same, rest.1))
          ]
        ]

  -- Two logs of the same number of events that both verify and end in the same hash hold the same
  -- events, in each field, the time and the event's own hash included, and in the encoding of each
  -- payload, or else they exhibit two different texts with one SHA-256 hash. The fields that stand
  -- before a separator must not hold one themselves, and the layout of the times must write different
  -- times differently.
  pub verified_logs_agree :
      (l l' : AuditLogger c)
      → FormatsApart
      → All IsPlain l.events
      → All IsPlain l'.events
      → verify c l ≡ none
      → verify c l' ≡ none
      → length l.events ≡ length l'.events
      → last_hash c "" l.events ≡ last_hash c "" l'.events
      → AllSame l.events l'.events ⊎ Collision
  unfolding verify
  verified_logs_agree l l' apart p q v v' n e =
      elim (Linked-AllSame "" "" (last_hash c "" l.events) l.events l'.events apart p q
        (verify→Linked c "" l.events v)
        (subst (Linked c "" l'.events) (sym e) (verify→Linked c "" l'.events v')) n) [
          | inl agree ↦ inl agree.1
          | inr clash ↦ inr clash
        ]

  digest_shift :
      (ev : AuditEvent c) (x y z : String) (o : Option String)
      → digest_of c (record ev { actor = x; action = separated y z }) o
        ≡ digest_of c (record ev { actor = separated x y; action = z }) o
  unfolding preimage
  digest_shift ev x y z none = refl
  digest_shift ev x y z (some json) =
      ap (λ t. some (c.sha256_hex (separated ev.event_id t))) (shift x y z _)

  -- A separator inside a field makes the hash ambiguous: an event whose actor is `x` and whose
  -- action is `y`, a separator and `z` has the same hash as one whose actor is `x`, a separator and
  -- `y` and whose action is `z`, all else being equal.
  pub hash_ambiguous :
      (ev : AuditEvent c) (x y z : String)
      → canonical_hash c (record ev { actor = x; action = separated y z })
        ≡ canonical_hash c (record ev { actor = separated x y; action = z })
  unfolding canonical_hash
  hash_ambiguous ev x y z = digest_shift ev x y z (canonical_payload c ev.payload)
