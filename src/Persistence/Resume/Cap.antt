-- ===== src/Persistence/Resume/Cap.antt =====
-- The cap on the attempts to resume a run.
use brain.Prelude.Assoc.{beq_refl}
use brain.Persistence.Checkpoints.Saves.{find-put, find-put_self, save_new_turn}
use brain.Prelude.{
  ℕ, zero, suc, ◌+◌, ◌-◌, ◌≤◌, ◌<◌, ◌≡◌, refl, sym, ap, ◌∙◌, ◌≢◌, ◌⊎◌, inl, inr, Bool, true, false,
  ◌&&◌, Option, none, some, List, [], ◌∷◌, arith, if◌then◌else◌, nat_eq, string_eq, ◌==◌,
  Bool-cases,
}
use brain.Prelude.Int.{ℤ, pos, negsuc, pos_part, ◌≤ℤ◌, ◌<ℤ◌, leb_ℤ, eqb_ℤ_iff, int_eq}
use brain.Prelude.Result.{Result, ok, err}
use brain.Errors.Codes
use mathlib.Core.Option.{some-injective}
use mathlib.Core.Path.{subst}
use brain.Persistence.Checkpoints.{
  Checkpoint, CheckpointStore, find, put, same_turn, save, get, marked, mark_resume_attempt,
  is_final,
}
use brain.Persistence.Resume.{
  max_resume_attempts, Others, alone, mark_and_reread, resume_read, resume, can_resume,
}
use brain.Persistence.Resume.Foretold.{is_ok, live}

-- What a call of `Resume` has done: nothing, and it failed; or one more attempt is marked for the
-- run, whose cap had not been reached.
abbrev Marked : CheckpointStore → ℤ → CheckpointStore → Type 0
Marked s run_id s' =
    (row : Checkpoint) × (now : ℕ) × (find s run_id ≡ some row)
    × (leb_ℤ max_resume_attempts row.resume_attempts ≡ false)
    × (s' ≡ put s run_id (marked row now))

get_ended : (s : CheckpointStore) (run_id : ℤ) → get s true run_id ≡ err Codes.deadline_exceeded
unfolding get
get_ended s run_id = refl

get-none :
    (s : CheckpointStore) (run_id : ℤ)
    → find s run_id ≡ none
    → get s false run_id ≡ err Codes.record_not_found
unfolding get
get-none s run_id e = rw e refl

get-some :
    (s : CheckpointStore) (run_id : ℤ) (row : Checkpoint)
    → find s run_id ≡ some row
    → get s false run_id ≡ ok row
unfolding get
get-some s run_id row e = rw e refl

abbrev Outcome : CheckpointStore → ℤ → CheckpointStore × Result Checkpoint → Type 0
Outcome s run_id r = ((r.0 ≡ s) × (is_ok r.1 ≡ false)) ⊎ Marked s run_id r.0

module _ (s : CheckpointStore) (ended : ℕ → Bool) (now : ℕ) (run_id : ℤ) where
  ended-Outcome :
      (b : Bool) (r : CheckpointStore × Result Checkpoint)
      → Outcome s run_id r
      → Outcome s run_id (if b then (s, err Codes.deadline_exceeded) else r)
  ended-Outcome true r h = inl (refl, refl)
  ended-Outcome false r h = h

  mark_and_reread-Outcome :
      (b : Bool) (row : Checkpoint)
      → find s run_id ≡ some row
      → leb_ℤ max_resume_attempts row.resume_attempts ≡ false
      → ended 2 ≡ b
      → Outcome s run_id (mark_and_reread s alone ended now run_id)
  unfolding mark_resume_attempt
  mark_and_reread-Outcome true row e left b = rw b (inl (refl, refl))
  mark_and_reread-Outcome false row e left b = rw (b, e) (inr (row, now, refl, left, refl))

  resume_read-Outcome :
      (row : Checkpoint)
      → find s run_id ≡ some row
      → Outcome s run_id (resume_read s alone ended now run_id (ok row))
  resume_read-Outcome row e = elim (Bool-cases (is_final row.state)) [
    | inl final ↦ rw final (inl (refl, refl))
    | inr going ↦ elim (Bool-cases (leb_ℤ max_resume_attempts row.resume_attempts)) [
      | inl spent ↦ rw (going, spent) (inl (refl, refl))
      | inr left ↦ rw (going, left) (mark_and_reread-Outcome (ended 2) row e left refl)
    ]
  ]

  get-Outcome :
      (b : Bool) (o : Option Checkpoint)
      → find s run_id ≡ o
      → ended 1 ≡ b
      → Outcome s run_id (resume_read s alone ended now run_id (get s (ended 1) run_id))
  get-Outcome true o e b = rw (b, get_ended s run_id) (inl (refl, refl))
  get-Outcome false none e b = rw (b, get-none s run_id e) (inl (refl, refl))
  get-Outcome false (some row) e b = rw (b, get-some s run_id row e) (resume_read-Outcome row e)

  resume-Outcome : Outcome s run_id (resume s alone ended now run_id)
  unfolding resume
  resume-Outcome = ended-Outcome (ended 0) _ (get-Outcome (ended 1) (find s run_id) refl refl)

-- A list of calls `(ended, now, run)`, and how many of them resumed the run `run_id`.
pub resumes : CheckpointStore → ℤ → List ((ℕ → Bool) × ℕ × ℤ) → ℕ
resumes s run_id [] = 0
resumes s run_id (call ∷ calls) =
    let (s', result) = resume s alone call.0 call.1 call.2 in
    let n = resumes s' run_id calls in if call.2 == run_id && is_ok result then n + 1 else n

marked_attempts :
    (row : Checkpoint) (now n : ℕ)
    → row.resume_attempts ≡ pos n
    → leb_ℤ max_resume_attempts row.resume_attempts ≡ false
    → (n < 3) × ((marked row now).resume_attempts ≡ pos (n + 1))
marked_attempts row now n at_n left = ground arith

-- What is left of the cap is enough for a call and for the calls after it.
module _ (s : CheckpointStore) (run_id : ℤ) (row : Checkpoint) (n : ℕ) where
  step_left :
      (j : ℤ) (s' : CheckpointStore) (success : Bool) (later : ℕ)
      → find s run_id ≡ some row
      → row.resume_attempts ≡ pos n
      → ((s' ≡ s) × (success ≡ false)) ⊎ Marked s j s'
      → ((row' : Checkpoint) (m : ℕ)
          → find s' run_id ≡ some row'
          → row'.resume_attempts ≡ pos m
          → later ≤ 3 - m)
      → (if j == run_id && success then later + 1 else later) ≤ 3 - n
  step_left j s' success later e at_n (inl (same, failed)) rest =
      rw failed (ground (arith, rest row n (rw same e) at_n))
  step_left j s' success later e at_n (inr (row', now, e', left, after)) rest =
      elim (Bool-cases (j == run_id)) [
        | inl own ↦
            let same = (eqb_ℤ_iff j run_id).0 own in
            let same_row =
              some-injective _ _ (sym (subst (λ k. find s k ≡ some row') same e') ∙ e) in
            let (below, count) =
              marked_attempts row' now n
                (ap (λ (r : Checkpoint). r.resume_attempts) same_row ∙ at_n) left in
            let found : find s' run_id ≡ some (marked row' now) =
              rw (after, same) (find-put_self s run_id (marked row' now)) in
            rw own (ground (arith, rest (marked row' now) (n + 1) found count))
        | inr other ↦
            let found : find s' run_id ≡ some row =
              rw after (find-put s j (marked row' now) run_id ∙ rw other e) in
            rw other (rest row n found at_n)
      ]

resumes_left :
    (s : CheckpointStore) (run_id : ℤ) (calls : List ((ℕ → Bool) × ℕ × ℤ)) (row : Checkpoint)
    (n : ℕ)
    → find s run_id ≡ some row
    → row.resume_attempts ≡ pos n
    → resumes s run_id calls ≤ 3 - n
unfolding resumes
resumes_left s run_id [] row n e at_n = omega arith
resumes_left s run_id (call ∷ calls) row n e at_n =
    let r = resume s alone call.0 call.1 call.2 in
    step_left s run_id row n call.2 r.0 (is_ok r.1) (resumes r.0 run_id calls) e at_n
      (resume-Outcome s call.0 call.1 call.2)
      (λ row' m e' at_m. resumes_left r.0 run_id calls row' m e' at_m)

nonneg : (z : ℤ) → pos 0 ≤ℤ z → z ≡ pos (pos_part z)
nonneg (pos n) p = refl
nonneg (negsuc n) p = absurd (omega arith)

-- With no save in between, and as long as no call of `Resume` begins before the one before it has
-- ended, a run is resumed at most three times, whatever runs are resumed, under whatever contexts and
-- at whatever times, from any checkpoint whose count is not negative.
pub resumes_bounded :
    (s : CheckpointStore) (run_id : ℤ) (calls : List ((ℕ → Bool) × ℕ × ℤ)) (row : Checkpoint)
    → find s run_id ≡ some row
    → pos 0 ≤ℤ row.resume_attempts
    → resumes s run_id calls ≤ 3
resumes_bounded s run_id calls row e p = omega (
  arith,
  resumes_left s run_id calls row (pos_part row.resume_attempts) e (nonneg row.resume_attempts p),
)

can_resume_found :
    (s : CheckpointStore) (run_id : ℤ) (row : Checkpoint)
    → find s run_id ≡ some row
    → is_final row.state ≡ false
    → row.resume_attempts <ℤ max_resume_attempts
    → can_resume s live run_id ≡ ok true
unfolding can_resume
can_resume_found s run_id row e going left = rw (get-some s run_id row e, going) (ground arith)

-- Saving a new turn whose count of resume attempts is below the cap makes the run resumable again,
-- whatever count the store had for the run: the cap does not outlive a save.
pub save-resumable :
    (s : CheckpointStore) (t : ℕ) (cp : Checkpoint)
    → cp.turn_uuid ≢ ""
    → same_turn (find s cp.run_id) cp ≡ false
    → is_final cp.state ≡ false
    → cp.resume_attempts <ℤ max_resume_attempts
    → can_resume (save s false t (some cp)).0 live cp.run_id ≡ ok true
save-resumable s t cp named new going left =
    can_resume_found _ cp.run_id (record cp { updated_at = t })
      ((save_new_turn s t cp cp.run_id named new).1 ∙ rw (beq_refl cp.run_id) refl) going left

-- Another call of `Resume` for the run, from its beginning to its end, between the first `Get` of a
-- call and its marking.
abbrev pub overlapped_by : ℕ → ℤ → Others
overlapped_by now run_id zero s = s
overlapped_by now run_id (suc zero) s = (resume s alone live now run_id).0
overlapped_by now run_id (suc (suc n)) s = s

resume-marked :
    (s : CheckpointStore) (now : ℕ) (run_id : ℤ) (row : Checkpoint)
    → find s run_id ≡ some row
    → is_final row.state ≡ false
    → leb_ℤ max_resume_attempts row.resume_attempts ≡ false
    → resume s alone live now run_id ≡ (put s run_id (marked row now), ok (marked row now))
unfolding resume get mark_resume_attempt
resume-marked s now run_id row e going left =
    rw (e, going, left, e, find-put_self s run_id (marked row now)) refl

mark_and_reread-marked :
    (s t : CheckpointStore) (others : Others) (now : ℕ) (run_id : ℤ) (row : Checkpoint)
    → others 1 s ≡ t
    → ((u : CheckpointStore) → others 2 u ≡ u)
    → find t run_id ≡ some row
    → (mark_and_reread s others live now run_id).1 ≡ ok (marked row now)
unfolding get mark_resume_attempt
mark_and_reread-marked s t others now run_id row at_mark quiet e =
    rw (at_mark, e, quiet (put t run_id (marked row now)), find-put_self t run_id (marked row now))
      refl

-- Two calls of `Resume` for one run that overlap, the second one running between the first one's
-- check of the cap and its marking, both succeed from a checkpoint that is not final and has one
-- attempt left: the count is then past the cap.
pub overlap_passes_cap :
    (s : CheckpointStore) (now now' : ℕ) (run_id : ℤ) (row : Checkpoint)
    → find s run_id ≡ some row
    → is_final row.state ≡ false
    → row.resume_attempts ≡ pos 2
    → ((resume s alone live now' run_id).1 ≡ ok (marked row now'))
      × ((resume s (overlapped_by now' run_id) live now run_id).1
          ≡ ok (marked (marked row now') now))
      × ((marked (marked row now') now).resume_attempts ≡ pos 4)
unfolding resume get mark_resume_attempt
overlap_passes_cap s now now' run_id row e going at_two =
    let left : leb_ℤ max_resume_attempts row.resume_attempts ≡ false = rw at_two refl in
    let whole = resume-marked s now' run_id row e going left in
    let first = marked row now' in
    let t = put s run_id first in
    let others = overlapped_by now' run_id in
    let during : others 1 s ≡ t = ap (λ (r : CheckpointStore × Result Checkpoint). r.0) whole in
    let second =
      mark_and_reread-marked s t others now run_id first during (λ u. refl)
        (find-put_self s run_id first) in
    (
      ap (λ (r : CheckpointStore × Result Checkpoint). r.1) whole,
      ap (λ o. (resume_read s others live now run_id o).1) (get-some s run_id row e)
          ∙ (rw (going, left) second),
      rw at_two refl,
    )
