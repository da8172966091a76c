-- ===== src/Persistence/Resume/Foretold.antt =====
-- CanResume foretells what Resume would return.
use brain.Persistence.Checkpoints.Saves.{find-put_self}
use brain.Prelude.{ℕ, ◌≡◌, refl, inl, inr, Bool, true, false, Option, none, some, arith, Bool-cases}
use brain.Prelude.Int.{ℤ, leb_ℤ}
use brain.Prelude.Result.{Result, ok, err}
use brain.Persistence.Checkpoints.{
  Checkpoint, CheckpointStore, find, get, marked, mark_resume_attempt, is_final,
}
use brain.Persistence.Resume.{max_resume_attempts, alone, resume, can_resume}

abbrev pub is_ok {ℓ} : {A : Type ℓ} → Result A → Bool
is_ok (ok a) = true
is_ok (err e) = false

-- A context that does not end during the call.
abbrev pub live : ℕ → Bool
live n = false

row_foretold :
    (s : CheckpointStore) (now : ℕ) (run_id : ℤ) (o : Option Checkpoint)
    → find s run_id ≡ o
    → can_resume s live run_id ≡ ok (is_ok (resume s alone live now run_id).1)
unfolding can_resume resume get mark_resume_attempt
row_foretold s now run_id none e = rw e refl
row_foretold s now run_id (some row) e = elim (Bool-cases (is_final row.state)) [
  | inl final ↦ rw (e, final) (ground arith)
  | inr going ↦ elim (Bool-cases (leb_ℤ max_resume_attempts row.resume_attempts)) [
    | inl spent ↦ rw (e, going, spent) refl
    | inr left ↦ rw (e, going, left, e, find-put_self s run_id (marked row now)) refl
  ]
]

-- Under a context that does not end, and if nobody else uses the store meanwhile, `CanResume` tells
-- exactly whether `Resume` would succeed.
pub can_resume_iff :
    (s : CheckpointStore) (now : ℕ) (run_id : ℤ)
    → can_resume s live run_id ≡ ok (is_ok (resume s alone live now run_id).1)
can_resume_iff s now run_id = row_foretold s now run_id (find s run_id) refl
