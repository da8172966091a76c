-- ===== src/Persistence/Resume.antt =====
-- persistence/mem_resume.go: the coordinator of resumption over the checkpoint store. A context may
-- end between two looks at `ctx.Err()`: what the n-th look of a call finds is `ended n`. The
-- coordinator has no lock: a call of Resume is three calls of the store, each of which runs as a
-- whole, and what other callers make of the store before the n-th of them is `others n`.
mod Foretold
mod Cap
mod Tests
use brain.Prelude.{
  ℕ, String, Bool, true, false, Option, none, some, if◌then◌else◌, nat_eq, string_eq, ◌==◌,
}
use brain.Prelude.Int.{ℤ, pos, leb_ℤ, int_eq}
use brain.Prelude.Result.{Result, ok, err}
use brain.Errors.Codes
use brain.Persistence.Checkpoints.{Checkpoint, CheckpointStore, get, mark_resume_attempt, is_final}

-- `MaxResumeAttempts`
abbrev pub max_resume_attempts : ℤ
max_resume_attempts = pos 3

-- What others do to the store between the calls that one Resume makes of it.
abbrev pub Others : Type 0
Others = ℕ → CheckpointStore → CheckpointStore

-- Nobody else uses the store.
abbrev pub alone : Others
alone n s = s

-- The last `Get` of `Resume`, unless marking failed.
abbrev pub reread :
    CheckpointStore → Others → (ℕ → Bool) → ℤ → Option String → CheckpointStore × Result Checkpoint
reread s others ended run_id (some e) = (s, err e)
reread s others ended run_id none = (others 2 s, get (others 2 s) (ended 3) run_id)

abbrev pub mark_and_reread :
    CheckpointStore → Others → (ℕ → Bool) → ℕ → ℤ → CheckpointStore × Result Checkpoint
mark_and_reread s others ended now run_id =
    let (s', error) = mark_resume_attempt (others 1 s) (ended 2) now run_id in
    reread s' others ended run_id error

abbrev pub resume_read :
    CheckpointStore
    → Others
    → (ℕ → Bool)
    → ℕ
    → ℤ
    → Result Checkpoint
    → CheckpointStore × Result Checkpoint
resume_read s others ended now run_id (err e) = (s, err e)
resume_read s others ended now run_id (ok cp) =
    if is_final cp.state
    then (s, err Codes.workflow_precondition)
    else if leb_ℤ max_resume_attempts cp.resume_attempts
    then (s, err Codes.invariant_violated)
    else mark_and_reread s others ended now run_id

-- `Resume`
pub resume : CheckpointStore → Others → (ℕ → Bool) → ℕ → ℤ → CheckpointStore × Result Checkpoint
unfolding get mark_resume_attempt
resume s others ended now run_id =
    if ended 0
    then (s, err Codes.deadline_exceeded)
    else resume_read (others 0 s) others ended now run_id (get (others 0 s) (ended 1) run_id)

abbrev pub can_resume_read : Result Checkpoint → Result Bool
can_resume_read (err e) = if e == Codes.record_not_found then ok false else err e
can_resume_read (ok cp) =
    if leb_ℤ max_resume_attempts cp.resume_attempts
    then ok false
    else if is_final cp.state
    then ok false
    else ok true

-- `CanResume`
pub can_resume : CheckpointStore → (ℕ → Bool) → ℤ → Result Bool
unfolding get
can_resume s ended run_id =
    if ended 0 then err Codes.deadline_exceeded else can_resume_read (get s (ended 1) run_id)
