-- ===== src/Persistence/Resume/Tests.antt =====
-- A run whose attempts are used up, and one that is fresh.
use brain.Prelude.{ℕ, ◌≤◌, ◌≡◌, refl, Bool, some, List, [], ◌∷◌, arith, nat_eq, string_eq}
use brain.Prelude.Int.{ℤ, pos, int_eq}
use brain.Prelude.Assoc
use brain.Prelude.Result.{ok}
use brain.Persistence.Checkpoints.{Checkpoint, CheckpointStore, find, marked}
use brain.Persistence.Resume.{alone, resume, can_resume}
use brain.Persistence.Resume.Foretold.{is_ok, live, can_resume_iff}
use brain.Persistence.Resume.Cap.{resumes, resumes_bounded, overlapped_by, overlap_passes_cap}

abbrev spent_turn : Checkpoint
spent_turn = record {
  run_id = pos 4;
  turn_index = pos 1;
  brain_id = "central";
  state = "running";
  messages_ref = "m";
  system_ref = "s";
  tools_ref = "t";
  cost_snapshot = [];
  token_snapshot = [];
  budget_remain = [];
  trace_parent = "";
  turn_uuid = "u1";
  resume_attempts = pos 3;
  updated_at = 3;
}

abbrev fresh_turn : Checkpoint
fresh_turn = record spent_turn { turn_uuid = "u2"; resume_attempts = pos 0 }

abbrev last_turn : Checkpoint
last_turn = record spent_turn { resume_attempts = pos 2 }

abbrev last_run : CheckpointStore
last_run = record { rows = (pos 4, last_turn) ∷ [] }

abbrev spent_run : CheckpointStore
spent_run = record { rows = (pos 4, spent_turn) ∷ [] }

abbrev fresh_run : CheckpointStore
fresh_run = record { rows = (pos 4, fresh_turn) ∷ [] }

fresh_turn_found : find fresh_run (pos 4) ≡ some fresh_turn
unfolding find Assoc.lookup
fresh_turn_found = refl

can_resume_iff_example :
    can_resume spent_run live (pos 4) ≡ ok (is_ok (resume spent_run alone live 9 (pos 4)).1)
can_resume_iff_example = can_resume_iff spent_run 9 (pos 4)

abbrev four_calls : List ((ℕ → Bool) × ℕ × ℤ)
four_calls = (live, 5, pos 4) ∷ (live, 6, pos 4) ∷ (live, 7, pos 4) ∷ (live, 8, pos 4) ∷ []

resumes_bounded_example : resumes fresh_run (pos 4) four_calls ≤ 3
resumes_bounded_example =
    resumes_bounded fresh_run (pos 4) four_calls fresh_turn fresh_turn_found (omega arith)

both_resumed :
    (resume last_run (overlapped_by 8 (pos 4)) live 9 (pos 4)).1
    ≡ ok (marked (marked last_turn 8) 9)
both_resumed =
    (overlap_passes_cap last_run 9 8 (pos 4) last_turn (unfold find Assoc.lookup in refl) refl
      refl).1
