-- ===== src/Security/AuditChain/Chain.antt =====
-- What is emitted verifies.
use brain.Prelude.Assoc.{beq_refl}
use brain.Prelude.{
  inr, arith, inl, ◌==◌, not, Bool-cases, if◌then◌else◌, String, ◌≡◌, refl, sym, ◌∙◌, Option, none,
  some, List, [], ◌∷◌, ◌++◌, nat_eq, string_eq,
}
use brain.Security.AuditChain.{
  check_hash, append_event, Canonical, AuditEvent, AuditLogger, new_logger, canonical_hash, emit,
  verify_from, verify,
}
use brain.Errors.Codes

module _ (c : Canonical) where
  -- The events link up from one hash to another, each with the hash of its own content.
  abbrev pub Linked : String → List (AuditEvent c) → String → Type 0
  Linked h [] t = h ≡ t
  Linked h (ev ∷ evs) t =
      (ev.prev_hash ≡ h) × (canonical_hash c ev ≡ some ev.self_hash) × Linked ev.self_hash evs t

  abbrev pub last_hash : String → List (AuditEvent c) → String
  last_hash h [] = h
  last_hash h (ev ∷ evs) = last_hash ev.self_hash evs

  Linked-last : (h t : String) (evs : List (AuditEvent c)) → Linked h evs t → t ≡ last_hash h evs
  Linked-last h t [] l = sym l
  Linked-last h t (ev ∷ evs) l = Linked-last ev.self_hash t evs l.2

  Linked→verify :
      (h t : String) (evs : List (AuditEvent c)) → Linked h evs t → verify_from c h evs ≡ none
  unfolding verify_from
  Linked→verify h t [] l = refl
  Linked→verify h t (ev ∷ evs) l =
      rw (l.0, l.1, beq_refl h, beq_refl ev.self_hash) (Linked→verify ev.self_hash t evs l.2)

  verify_step :
      (ev : AuditEvent c) (prev : String) (rest o : Option String)
      → (if not (ev.prev_hash == prev)
          then some Codes.invariant_violated
          else elim (check_hash c ev o) [ some e ↦ some e | none ↦ rest ])
        ≡ none
      → (ev.prev_hash ≡ prev) × (o ≡ some ev.self_hash) × (rest ≡ none)
  verify_step ev prev rest none h = ground (arith, string_eq.beq_iff ev.prev_hash prev)
  verify_step ev prev rest (some x) h =
      ground (arith, string_eq.beq_iff ev.prev_hash prev, string_eq.beq_iff x ev.self_hash)

  pub verify→Linked :
      (h : String) (evs : List (AuditEvent c))
      → verify_from c h evs ≡ none
      → Linked h evs (last_hash h evs)
  unfolding verify_from
  verify→Linked h [] v = refl
  verify→Linked h (ev ∷ evs) v =
      let (p, q, r) = verify_step ev h _ (canonical_hash c ev) v in
      (p, q, verify→Linked ev.self_hash evs r)

  Linked-snoc :
      (h t : String) (evs : List (AuditEvent c)) (ev : AuditEvent c)
      → Linked h evs t
      → ev.prev_hash ≡ t
      → canonical_hash c ev ≡ some ev.self_hash
      → Linked h (evs ++ ev ∷ []) ev.self_hash
  Linked-snoc h t [] ev l p q = (p ∙ sym l, q, refl)
  Linked-snoc h t (e ∷ evs) ev l p q = (l.0, l.1, Linked-snoc e.self_hash t evs ev l.2 p q)

  abbrev pub IsChained : AuditLogger c → Type 0
  IsChained l = Linked "" l.events l.tail_hash

  append-IsChained :
      (l : AuditLogger c) (ev : AuditEvent c) (o : Option String)
      → canonical_hash c ev ≡ o
      → ev.prev_hash ≡ l.tail_hash
      → IsChained l
      → IsChained (append_event c l ev o).0
  unfolding canonical_hash
  append-IsChained l ev none e p h = h
  append-IsChained l ev (some x) e p h = Linked-snoc "" l.tail_hash l.events _ h p e

  emit-IsChained :
      (l : AuditLogger c) (ev : Option (AuditEvent c)) → IsChained l → IsChained (emit c l ev).0
  unfolding emit
  emit-IsChained l none h = h
  emit-IsChained l (some ev) h = elim (Bool-cases (ev.prev_hash == "")) [
    | inl first ↦ rw first (append-IsChained l _ _ refl refl h)
    | inr given ↦ elim (Bool-cases (ev.prev_hash == l.tail_hash)) [
      | inl fits ↦
          rw (given, fits)
            (append-IsChained l ev _ refl ((string_eq.beq_iff ev.prev_hash l.tail_hash).0 fits) h)
      | inr wrong ↦ rw (given, wrong) h
    ]
  ]

  unfoldable pub emit_all : AuditLogger c → List (Option (AuditEvent c)) → AuditLogger c
  emit_all l [] = l
  emit_all l (ev ∷ evs) = emit_all (emit c l ev).0 evs

  emit_all-IsChained :
      (l : AuditLogger c) (evs : List (Option (AuditEvent c)))
      → IsChained l
      → IsChained (emit_all l evs)
  unfolding emit_all
  emit_all-IsChained l [] h = h
  emit_all-IsChained l (ev ∷ evs) h = emit_all-IsChained (emit c l ev).0 evs (emit-IsChained l ev h)

  -- Whatever is emitted to a new log, nil events, events with a wrong previous hash and events that
  -- cannot be encoded included, the log verifies, and its tail is the hash of its last event.
  pub emitted_verifies :
      (evs : List (Option (AuditEvent c)))
      → let l = emit_all (new_logger c) evs in
        (verify c l ≡ none) × (l.tail_hash ≡ last_hash "" l.events)
  unfolding verify new_logger
  emitted_verifies evs =
      let h = emit_all-IsChained (new_logger c) evs (unfold new_logger in refl) in
      (Linked→verify "" _ _ h, Linked-last "" _ _ h)
