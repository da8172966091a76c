-- ===== src/Persistence/PlanStore.antt =====
-- persistence/mem_plan_store.go and persistence/plan_store.go: plans with an optimistic lock. The
-- mutex is left out: each method runs as a whole under it. The clock's reading, and whether
-- `ctx.Err()` is set, are arguments; a nil argument is `none`; a JSON text is a list of bytes,
-- which the store copies in and out. The deltas of a plan stand with the oldest first.
pub mod Locking
pub mod Versions
mod Tests
use brain.Prelude.{
  ℕ, String, Bool, true, false, not, Option, none, some, List, [], ◌∷◌, ◌++◌, if◌then◌else◌, ◌==◌,
  nat_eq, string_eq, is_some, is_nil,
}
use brain.Prelude.Int.{ℤ, pos, ◌+ℤ◌, int_eq, wrap64}
use brain.Prelude.Result.{Result, ok, err}
use brain.Prelude.Sorting.{insertion_sort}
use brain.Prelude.Assoc
use brain.Errors.Codes

pub record BrainPlan : Type 0 where
  pub id : ℤ
  pub run_id : ℤ
  pub brain_id : String
  pub version : ℤ
  pub current_state : List ℕ
  pub archived : Bool
  pub created_at : ℕ
  pub updated_at : ℕ

pub record BrainPlanDelta : Type 0 where
  pub id : ℤ
  pub plan_id : ℤ
  pub version : ℤ
  pub op_type : String
  pub payload : List ℕ
  pub actor : String
  pub created_at : ℕ

pub record MemPlanEntry : Type 0 where
  pub plan : BrainPlan
  pub deltas : List BrainPlanDelta

pub record MemPlanStore : Type 0 where
  pub plans : List (ℤ × MemPlanEntry)
  pub id_seq : ℤ

-- `NewMemPlanStore`
unfoldable pub new_mem_plan_store : MemPlanStore
new_mem_plan_store = record { plans = []; id_seq = pos 0 }

pub find : MemPlanStore → ℤ → Option MemPlanEntry
find s id = Assoc.lookup id s.plans

-- `s.idSeq.Add(1)`
abbrev pub next_id : MemPlanStore → ℤ
next_id s = wrap64 (s.id_seq +ℤ pos 1)

-- The bytes of `{}`.
abbrev pub empty_object : List ℕ
empty_object = b'{' ∷ b'}' ∷ []

abbrev pub state_or_empty : List ℕ → List ℕ
state_or_empty x = if is_nil x then empty_object else x

-- The row that `Create` stores.
abbrev pub first_entry : BrainPlan → ℤ → ℕ → MemPlanEntry
first_entry p id now = record {
  plan = record {
    id = id;
    run_id = p.run_id;
    brain_id = p.brain_id;
    version = pos 1;
    current_state = state_or_empty p.current_state;
    archived = false;
    created_at = now;
    updated_at = now;
  };
  deltas = [];
}

abbrev pub put_entry : MemPlanStore → ℤ → ℤ → MemPlanEntry → MemPlanStore
put_entry s seq id e = record { plans = Assoc.insert id e s.plans; id_seq = seq }

abbrev create_plan : MemPlanStore → BrainPlan → ℕ → MemPlanStore × Result ℤ
create_plan s p now =
    if p.id == pos 0
    then (put_entry s (next_id s) (next_id s) (first_entry p (next_id s) now), ok (next_id s))
    else if is_some (find s p.id)
    then (s, err Codes.db_unique_violation)
    else (put_entry s s.id_seq p.id (first_entry p p.id now), ok p.id)

-- `Create`
pub create : MemPlanStore → Bool → ℕ → Option BrainPlan → MemPlanStore × Result ℤ
unfolding find
create s ctx_err now none = (s, err Codes.invalid_params)
create s ctx_err now (some p) =
    if ctx_err then (s, err Codes.deadline_exceeded) else create_plan s p now

abbrev plan_of : Option MemPlanEntry → Result BrainPlan
plan_of none = err Codes.record_not_found
plan_of (some e) = ok e.plan

-- `Get`
pub get : MemPlanStore → Bool → ℤ → Result BrainPlan
unfolding find
get s ctx_err id = if ctx_err then err Codes.deadline_exceeded else plan_of (find s id)

-- `committedDelta`; `seq` is the number drawn for it.
abbrev pub delta_row : MemPlanEntry → BrainPlanDelta → ℤ → ℤ → ℕ → BrainPlanDelta
delta_row e d id seq now = record d {
  id = if d.id == pos 0 then seq else d.id;
  plan_id = id;
  version = wrap64 (e.plan.version +ℤ pos 1);
  created_at = now;
}

-- The entry after the delta has been committed.
abbrev pub commit : MemPlanEntry → BrainPlanDelta → ℤ → ℤ → ℕ → MemPlanEntry
commit e d id seq now = record {
  plan = record e.plan {
    version = wrap64 (e.plan.version +ℤ pos 1);
    current_state = if is_nil d.payload then e.plan.current_state else d.payload;
    updated_at = now;
  };
  deltas = e.deltas ++ (delta_row e d id seq now ∷ []);
}

abbrev update_entry :
    MemPlanStore → ℕ → ℤ → BrainPlanDelta → Option MemPlanEntry → MemPlanStore × Option String
update_entry s now id d none = (s, some Codes.record_not_found)
update_entry s now id d (some e) =
    if e.plan.archived
    then (s, some Codes.workflow_precondition)
    else if not (d.version == wrap64 (e.plan.version +ℤ pos 1))
    then (s, some Codes.db_deadlock)
    else (put_entry s (next_id s) id (commit e d id (next_id s) now), none)

-- `Update`
pub update : MemPlanStore → Bool → ℕ → ℤ → Option BrainPlanDelta → MemPlanStore × Option String
unfolding find
update s ctx_err now id none = (s, some Codes.invalid_params)
update s ctx_err now id (some d) =
    if ctx_err then (s, some Codes.deadline_exceeded) else update_entry s now id d (find s id)

-- The loop of `ListByRun` over the map.
abbrev of_run : ℤ → List (ℤ × MemPlanEntry) → List BrainPlan
of_run run_id [] = []
of_run run_id ((k, e) ∷ m) =
    let rest = of_run run_id m in if e.plan.run_id == run_id then e.plan ∷ rest else rest

-- `ListByRun`
pub list_by_run : MemPlanStore → Bool → ℤ → Result (List BrainPlan)
unfolding insertion_sort
list_by_run s ctx_err run_id =
    if ctx_err
    then err Codes.deadline_exceeded
    else ok (insertion_sort (λ (p : BrainPlan). p.id) (of_run run_id s.plans))

abbrev archive_entry : MemPlanStore → ℕ → ℤ → Option MemPlanEntry → MemPlanStore × Option String
archive_entry s now id none = (s, some Codes.record_not_found)
archive_entry s now id (some e) = (
  put_entry s s.id_seq id (record e { plan = record e.plan { archived = true; updated_at = now } }),
  none,
)

-- `Archive`
pub archive : MemPlanStore → Bool → ℕ → ℤ → MemPlanStore × Option String
unfolding find
archive s ctx_err now id =
    if ctx_err then (s, some Codes.deadline_exceeded) else archive_entry s now id (find s id)

abbrev deltas_of : Option MemPlanEntry → List BrainPlanDelta
deltas_of none = []
deltas_of (some e) = e.deltas

-- `DeltasFor`
pub deltas_for : MemPlanStore → ℤ → List BrainPlanDelta
unfolding find
deltas_for s id = deltas_of (find s id)
