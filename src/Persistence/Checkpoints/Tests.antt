-- ===== src/Persistence/Checkpoints/Tests.antt =====
-- A store with one checkpoint.
use brain.Prelude.{false, ◌≡◌, refl, some, [], ◌∷◌, nat_eq, string_eq}
use brain.Prelude.Int.{pos, int_eq}
use brain.Prelude.Assoc
use brain.Persistence.Checkpoints.{Checkpoint, CheckpointStore, find, put, save}

abbrev first_turn : Checkpoint
first_turn = record {
  run_id = pos 4;
  turn_index = pos 1;
  brain_id = "central";
  state = "running";
  messages_ref = "m";
  system_ref = "s";
  tools_ref = "t";
  cost_snapshot = [];
  token_snapshot = [];
  budget_remain = [];
  trace_parent = "";
  turn_uuid = "u1";
  resume_attempts = pos 0;
  updated_at = 3;
}

abbrev second_turn : Checkpoint
second_turn = record first_turn { turn_index = pos 2; turn_uuid = "u2" }

abbrev one_run : CheckpointStore
one_run = record { rows = (pos 4, first_turn) ∷ [] }

first_turn_found : find one_run (pos 4) ≡ some first_turn
unfolding find Assoc.lookup
first_turn_found = refl

replaces_turn :
    find (save one_run false 9 (some second_turn)).0 (pos 4)
    ≡ some (record second_turn { updated_at = 9 })
unfolding save find put Assoc.lookup Assoc.insert
replaces_turn = refl
