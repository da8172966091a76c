-- ===== src/Persistence/Checkpoints/Saves.antt =====
-- Saving, marking and listing checkpoints.
use brain.Prelude.{
  named_test, inr, inl, Bool-cases, Option, true, ℕ, ◌≡◌, refl, ◌∙◌, ◌≢◌, false, none, some, List,
  if◌then◌else◌, ◌==◌, nat_eq, string_eq,
}
use brain.Prelude.Int.{ℤ, int_eq}
use brain.Prelude.Result.{ok}
use brain.Prelude.Assoc.{lookup-insert, beq_refl}
use brain.Prelude.Sorting.{insertion_sort, IsAscending, insertion_sort_lem}
use brain.Persistence.Checkpoints.{
  Option, same_turn, Checkpoint, CheckpointStore, find, put, save, marked, mark_resume_attempt,
  resumable, list_resumable,
}
use mathlib.Core.List.{Perm}

pub find-put :
    (s : CheckpointStore) (id : ℤ) (row : Checkpoint) (j : ℤ)
    → find (put s id row) j ≡ (if id == j then some row else find s j)
unfolding find put
find-put s id row j = lookup-insert id j row s.rows

pub find-put_self :
    (s : CheckpointStore) (id : ℤ) (row : Checkpoint) → find (put s id row) id ≡ some row
find-put_self s id row = find-put s id row id ∙ rw (beq_refl id)

-- The run of `cp` stands in the store at the turn of `cp`.
abbrev IsAtTurn : CheckpointStore → Checkpoint → Type 0
IsAtTurn s cp = (row : Checkpoint) × (find s cp.run_id ≡ some row) × (row.turn_uuid ≡ cp.turn_uuid)

saved_at :
    (s : CheckpointStore) (t : ℕ) (cp : Checkpoint) (o : Option Checkpoint)
    → cp.turn_uuid ≢ ""
    → find s cp.run_id ≡ o
    → IsAtTurn (save s false t (some cp)).0 cp
unfolding save
saved_at s t cp none named e =
    let row = record cp { updated_at = t } in
    rw (named_test cp.turn_uuid named, e) (row, find-put_self s cp.run_id row, refl)
saved_at s t cp (some row) named e = elim (Bool-cases (row.turn_uuid == cp.turn_uuid)) [
  | inl same ↦
      rw (named_test cp.turn_uuid named, e, same)
        (row, e, (string_eq.beq_iff row.turn_uuid cp.turn_uuid).0 same)
  | inr new ↦
      let row' = record cp { updated_at = t } in
      rw (named_test cp.turn_uuid named, e, new) (row', find-put_self s cp.run_id row', refl)
]

save_again :
    (s : CheckpointStore) (u : ℕ) (cp cp' : Checkpoint)
    → cp.turn_uuid ≢ ""
    → cp'.run_id ≡ cp.run_id
    → cp'.turn_uuid ≡ cp.turn_uuid
    → IsAtTurn s cp
    → save s false u (some cp') ≡ (s, none)
unfolding save
save_again s u cp cp' named run turn (row, found, at_turn) =
    let taken : (row.turn_uuid == cp.turn_uuid) ≡ true =
      (string_eq.beq_iff row.turn_uuid cp.turn_uuid).1 at_turn in
    rw (turn, run, named_test cp.turn_uuid named, found, taken)

marked-IsAtTurn :
    (s : CheckpointStore) (v : ℕ) (cp : Checkpoint)
    → IsAtTurn s cp
    → IsAtTurn (mark_resume_attempt s false v cp.run_id).0 cp
unfolding mark_resume_attempt
marked-IsAtTurn s v cp (row, found, at_turn) =
    rw found (marked row v, find-put_self s cp.run_id (marked row v), at_turn)

-- A repeated save of one turn, whatever the second checkpoint holds and whenever it comes, and
-- however many resume attempts were marked in between, returns no error and changes nothing.
pub save_idempotent :
    (s : CheckpointStore) (t u v : ℕ) (cp cp' : Checkpoint)
    → cp.turn_uuid ≢ ""
    → cp'.run_id ≡ cp.run_id
    → cp'.turn_uuid ≡ cp.turn_uuid
    → let s' = (save s false t (some cp)).0 in
      let s'' = (mark_resume_attempt s' false v cp.run_id).0 in
      (save s' false u (some cp') ≡ (s', none)) × (save s'' false u (some cp') ≡ (s'', none))
save_idempotent s t u v cp cp' named run turn =
    let at_turn = saved_at s t cp (find s cp.run_id) named refl in
    (
      save_again _ u cp cp' named run turn at_turn,
      save_again _ u cp cp' named run turn (marked-IsAtTurn _ v cp at_turn),
    )

-- A save of a turn that has an id and is new to its run replaces the checkpoint of that run alone,
-- its count of resume attempts included, with the time of the save.
pub save_new_turn :
    (s : CheckpointStore) (t : ℕ) (cp : Checkpoint) (j : ℤ)
    → cp.turn_uuid ≢ ""
    → same_turn (find s cp.run_id) cp ≡ false
    → let (s', error) = save s false t (some cp) in
      (error ≡ none)
      × (find s' j ≡ (if cp.run_id == j then some (record cp { updated_at = t }) else find s j))
unfolding save
save_new_turn s t cp j named new =
    rw (named_test cp.turn_uuid named, new)
      (refl, find-put s cp.run_id (record cp { updated_at = t }) j)

-- Marking counts one more resume attempt of a run that has a checkpoint, and changes no other run.
pub mark_lem :
    (s : CheckpointStore) (t : ℕ) (run_id j : ℤ) (row : Checkpoint)
    → find s run_id ≡ some row
    → let (s', error) = mark_resume_attempt s false t run_id in
      (error ≡ none) × (find s' j ≡ (if run_id == j then some (marked row t) else find s j))
unfolding mark_resume_attempt
mark_lem s t run_id j row h = rw h (refl, find-put s run_id (marked row t) j)

-- A run is listed as resumable exactly once for each row whose state is not one of the three final
-- ones, and the list is in ascending order.
pub list_resumable_lem :
    (s : CheckpointStore)
    → (ids : List ℤ) × (list_resumable s false ≡ ok ids)
      × Perm ids (resumable s.rows)
      × IsAscending (λ (id : ℤ). id) ids
unfolding list_resumable
list_resumable_lem s =
    let (p, a) = insertion_sort_lem (λ (id : ℤ). id) (resumable s.rows) in
    (insertion_sort (λ (id : ℤ). id) (resumable s.rows), refl, p, a)
