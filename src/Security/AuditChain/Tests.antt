-- ===== src/Security/AuditChain/Tests.antt =====
-- A log of two events, hashed by a function that keeps its text.
use Prim.Native.String.{◌∷◌ as ◌∷ₛ◌, [] as []ₛ}
use brain.Prelude.{zero, ap, ◌∙◌, suc, sym, ℕ, ◌⊎◌, String, ◌≡◌, refl, none, some, [], ◌∷◌, arith}
use brain.Security.AuditChain.{
  Canonical, AuditEvent, AuditLogger, new_logger, canonical_payload, preimage, canonical_hash,
  verify_from, verify,
}
use brain.Security.AuditChain.Chain.{emit_all, emitted_verifies}
use brain.Security.AuditChain.Separators.{separated}
use brain.Security.AuditChain.Tampering.{
  FormatsApart, Collision, IsPlain, AllSame, verified_logs_agree, hash_ambiguous,
}

-- A time as a text of its length.
tally : ℕ → String
tally zero = ""
tally (suc n) = "z" ∷ₛ tally n

tally_length : String → ℕ
tally_length []ₛ = 0
tally_length (c ∷ₛ s) = suc (tally_length s)

tally_length-tally : (n : ℕ) → tally_length (tally n) ≡ n
unfolding tally tally_length
tally_length-tally zero = refl
tally_length-tally (suc n) = ap suc (tally_length-tally n)

abbrev plain_text : Canonical
plain_text = record {
  Value = String;
  sha256_hex = λ s. s;
  sort_strings = λ xs. xs;
  marshal = λ m. some "{...}";
  format_utc = λ t. tally t;
}

abbrev login : AuditEvent plain_text
login = record {
  event_id = "1";
  actor = "ann";
  action = "login";
  resource = "shell";
  timestamp = 2;
  prev_hash = "";
  self_hash = "";
  payload = [];
}

abbrev logout : AuditEvent plain_text
logout = record login { event_id = "2"; action = "logout"; payload = ("k", "v") ∷ [] }

emitted_verifies_example :
    verify plain_text
      (emit_all plain_text (new_logger plain_text) (some login ∷ none ∷ some logout ∷ []))
    ≡ none
emitted_verifies_example = (emitted_verifies plain_text (some login ∷ none ∷ some logout ∷ [])).0

abbrev logged : AuditEvent plain_text
logged = record login { self_hash = "1\u{1f}ann\u{1f}login\u{1f}shell\u{1f}zz\u{1f}\u{1f}{}" }

abbrev one_event : AuditLogger plain_text
one_event = record { events = logged ∷ []; tail_hash = logged.self_hash }

tally_apart : FormatsApart plain_text
tally_apart t t' e = sym (tally_length-tally t) ∙ ap tally_length e ∙ tally_length-tally t'

logged-IsPlain : IsPlain plain_text logged
unfolding tally
logged-IsPlain = record {
  event_id = (omega arith, tt);
  actor = (omega arith, (omega arith, (omega arith, tt)));
  action = (omega arith, (omega arith, (omega arith, (omega arith, (omega arith, tt)))));
  resource = (omega arith, (omega arith, (omega arith, (omega arith, (omega arith, tt)))));
  timestamp = (omega arith, (omega arith, tt));
  prev_hash = tt;
}

verified_logs_agree_example : AllSame plain_text (logged ∷ []) (logged ∷ []) ⊎ Collision plain_text
unfolding verify verify_from canonical_hash canonical_payload preimage tally
verified_logs_agree_example =
    verified_logs_agree plain_text one_event one_event tally_apart (logged-IsPlain, tt)
      (logged-IsPlain, tt) refl refl refl refl

hash_ambiguous_example :
    canonical_hash plain_text (record login { actor = "ann"; action = separated "x" "y" })
    ≡ canonical_hash plain_text (record login { actor = separated "ann" "x"; action = "y" })
hash_ambiguous_example = hash_ambiguous plain_text login "ann" "x" "y"
