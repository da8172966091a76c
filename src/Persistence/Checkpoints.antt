-- ===== src/Persistence/Checkpoints.antt =====
-- persistence/mem_run_checkpoint.go and persistence/run_checkpoint.go: one checkpoint for each run.
-- The mutex is left out: each method runs as a whole under it. The clock's reading, and whether
-- `ctx.Err()` is set, are arguments; a nil argument is `none`; a reference and a JSON text are a
-- text and a list of bytes, which the store copies in and out.
pub mod Saves
mod Tests
use brain.Prelude.{
  ℕ, String, Bool, false, ◌||◌, Option, none, some, List, [], ◌∷◌, if◌then◌else◌, ◌==◌, nat_eq,
  string_eq,
}
use brain.Prelude.Int.{ℤ, pos, ◌+ℤ◌, int_eq, wrap64}
use brain.Prelude.Result.{Result, ok, err}
use brain.Prelude.Sorting.{insertion_sort}
use brain.Prelude.Assoc
use brain.Errors.Codes

pub record Checkpoint : Type 0 where
  pub run_id : ℤ
  pub turn_index : ℤ
  pub brain_id : String
  pub state : String
  pub messages_ref : String
  pub system_ref : String
  pub tools_ref : String
  pub cost_snapshot : List ℕ
  pub token_snapshot : List ℕ
  pub budget_remain : List ℕ
  pub trace_parent : String
  pub turn_uuid : String
  pub resume_attempts : ℤ
  pub updated_at : ℕ

-- `MemRunCheckpointStore`
pub record CheckpointStore : Type 0 where
  pub rows : List (ℤ × Checkpoint)

-- `NewMemRunCheckpointStore`
unfoldable pub new_checkpoint_store : CheckpointStore
new_checkpoint_store = record { rows = [] }

unfoldable pub find : CheckpointStore → ℤ → Option Checkpoint
find s run_id = Assoc.lookup run_id s.rows

-- `s.rows[runID] = row`
unfoldable pub put : CheckpointStore → ℤ → Checkpoint → CheckpointStore
put s run_id row = record { rows = Assoc.insert run_id row s.rows }

abbrev pub same_turn : Option Checkpoint → Checkpoint → Bool
same_turn none cp = false
same_turn (some row) cp = row.turn_uuid == cp.turn_uuid

-- `Save`
unfoldable pub save :
    CheckpointStore → Bool → ℕ → Option Checkpoint → CheckpointStore × Option String
unfolding find put
save s ctx_err now none = (s, some Codes.invalid_params)
save s ctx_err now (some cp) =
    if cp.turn_uuid == ""
    then (s, some Codes.invalid_params)
    else if ctx_err
    then (s, some Codes.deadline_exceeded)
    else if same_turn (find s cp.run_id) cp
    then (s, none)
    else (put s cp.run_id (record cp { updated_at = now }), none)

abbrev row_of : Option Checkpoint → Result Checkpoint
row_of none = err Codes.record_not_found
row_of (some row) = ok row

-- `Get`
unfoldable pub get : CheckpointStore → Bool → ℤ → Result Checkpoint
unfolding find
get s ctx_err run_id = if ctx_err then err Codes.deadline_exceeded else row_of (find s run_id)

abbrev pub marked : Checkpoint → ℕ → Checkpoint
marked row now = record row {
  resume_attempts = wrap64 (row.resume_attempts +ℤ pos 1);
  updated_at = now;
}

abbrev mark : CheckpointStore → ℕ → ℤ → Option Checkpoint → CheckpointStore × Option String
mark s now run_id none = (s, some Codes.record_not_found)
mark s now run_id (some row) = (put s run_id (marked row now), none)

-- `MarkResumeAttempt`
unfoldable pub mark_resume_attempt :
    CheckpointStore → Bool → ℕ → ℤ → CheckpointStore × Option String
unfolding find put
mark_resume_attempt s ctx_err now run_id =
    if ctx_err then (s, some Codes.deadline_exceeded) else mark s now run_id (find s run_id)

-- The states that `ListResumable` passes over.
abbrev pub is_final : String → Bool
is_final state = state == "Completed" || state == "Failed" || state == "Cancelled"

-- The loop over the map.
pub resumable : List (ℤ × Checkpoint) → List ℤ
resumable [] = []
resumable ((id, row) ∷ m) = let rest = resumable m in if is_final row.state then rest else id ∷ rest

-- `ListResumable`
pub list_resumable : CheckpointStore → Bool → Result (List ℤ)
unfolding resumable insertion_sort
list_resumable s ctx_err =
    if ctx_err
    then err Codes.deadline_exceeded
    else ok (insertion_sort (λ (id : ℤ). id) (resumable s.rows))
