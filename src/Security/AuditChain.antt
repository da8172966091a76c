-- ===== src/Security/AuditChain.antt =====
-- security/hash_chain_audit.go and security/audit.go: the hash-chained audit log. The mutex is left
-- out: each method runs as a whole under it. SHA-256 with its hex form, `sort.Strings`,
-- `json.Marshal` and `Time.Format` are the operations of a parameter. A payload is a map from texts
-- to values of any kind, as an association list.
pub mod Chain
pub mod Separators
pub mod Tampering
mod Tests
use brain.Prelude.{
  ℕ, String, not, Option, none, some, List, [], ◌∷◌, ◌++◌, if◌then◌else◌, ◌==◌, nat_eq, string_eq,
  concat,
}
use brain.Prelude.Assoc
use brain.Errors.Codes

-- The standard library's part of `canonicalHash`.
pub record Canonical : Type 1 where
  pub Value : Type 0
  pub sha256_hex : String → String
  pub sort_strings : List String → List String
  pub marshal : List (String × Value) → Option String
  pub format_utc : ℕ → String

module _ (c : Canonical) where
  open c use {Value, sha256_hex, sort_strings, marshal, format_utc}

  pub record AuditEvent : Type 0 where
    pub event_id : String
    pub actor : String
    pub action : String
    pub resource : String
    pub timestamp : ℕ
    pub prev_hash : String
    pub self_hash : String
    pub payload : List (String × Value)

  -- `events` has the oldest event first.
  pub record AuditLogger : Type 0 where
    pub events : List AuditEvent
    pub tail_hash : String

  -- `NewHashChainAuditLogger`
  pub new_logger : AuditLogger
  new_logger = record { events = []; tail_hash = "" }

  keys : List (String × Value) → List String
  keys [] = []
  keys ((k, v) ∷ m) = k ∷ keys m

  -- `{k, payload[k]}` for each key.
  pairs : List String → List (String × Value) → List (String × Value)
  pairs [] m = []
  pairs (k ∷ ks) m =
      let rest = pairs ks m in elim (Assoc.lookup k m) [ none ↦ rest | some v ↦ (k, v) ∷ rest ]

  -- `canonicalPayload`
  pub canonical_payload : List (String × Value) → Option String
  unfolding keys pairs
  canonical_payload [] = some "{}"
  canonical_payload (x ∷ m) = let all = x ∷ m in marshal (pairs (sort_strings (keys all)) all)

  -- One `h.Write` of a field and one of the separator.
  abbrev field : String → String → String
  field s rest = concat s (concat "\u{1f}" rest)

  -- The text that is hashed.
  pub preimage : AuditEvent → String → String
  preimage ev payload_json = field ev.event_id (
      field ev.actor (
        field ev.action
          (field ev.resource (field (format_utc ev.timestamp) (field ev.prev_hash payload_json)))))

  abbrev digest_of : AuditEvent → Option String → Option String
  digest_of ev none = none
  digest_of ev (some json) = some (sha256_hex (preimage ev json))

  -- `canonicalHash`
  pub canonical_hash : AuditEvent → Option String
  unfolding canonical_payload preimage
  canonical_hash ev = digest_of ev (canonical_payload ev.payload)

  -- The end of `Emit`: the event gets its hash, and a copy of it goes to the log.
  abbrev append_event :
      AuditLogger → AuditEvent → Option String → AuditLogger × AuditEvent × Option String
  append_event l ev none = (l, ev, some Codes.assertion_failed)
  append_event l ev (some h) =
      let ev' = record ev { self_hash = h } in
      (record { events = l.events ++ ev' ∷ []; tail_hash = h }, ev', none)

  emit_event : AuditLogger → AuditEvent → AuditLogger × AuditEvent × Option String
  unfolding canonical_hash
  emit_event l ev =
      let ev' = record ev { prev_hash = l.tail_hash } in
      let first = append_event l ev' (canonical_hash ev') in
      if ev.prev_hash == ""
      then first
      else if not (ev.prev_hash == l.tail_hash)
      then (l, ev, some Codes.invariant_violated)
      else append_event l ev (canonical_hash ev)

  -- `Emit`: the log, the caller's event after the call, and the error; nil is `none`.
  pub emit : AuditLogger → Option AuditEvent → AuditLogger × Option AuditEvent × Option String
  unfolding emit_event
  emit l none = (l, none, some Codes.invariant_violated)
  emit l (some ev) = let (l', ev', error) = emit_event l ev in (l', some ev', error)

  abbrev check_hash : AuditEvent → Option String → Option String
  check_hash ev none = some Codes.assertion_failed
  check_hash ev (some expected) =
      if not (expected == ev.self_hash) then some Codes.invariant_violated else none

  -- The loop of `Verify`, from the hash that the next event has to name.
  pub verify_from : String → List AuditEvent → Option String
  unfolding canonical_hash
  verify_from prev [] = none
  verify_from prev (ev ∷ evs) =
      let rest = verify_from ev.self_hash evs in
      if not (ev.prev_hash == prev)
      then some Codes.invariant_violated
      else elim (check_hash ev (canonical_hash ev)) [ some e ↦ some e | none ↦ rest ]

  -- `Verify`
  pub verify : AuditLogger → Option String
  unfolding verify_from
  verify l = verify_from "" l.events
