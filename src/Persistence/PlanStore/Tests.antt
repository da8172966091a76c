-- ===== src/Persistence/PlanStore/Tests.antt =====
-- A store with one plan.
use brain.Prelude.{◌≡◌, refl, false, some, List, [], ◌∷◌, arith, nat_eq, string_eq}
use brain.Prelude.Int.{pos, int_eq}
use brain.Prelude.Assoc
use brain.Errors.Codes
use brain.Prelude.Result.{ok}
use brain.Prelude.Sorting.{insertion_sort, sort_onto, sink}
use brain.Persistence.PlanStore.{
  list_by_run, BrainPlan, BrainPlanDelta, MemPlanEntry, MemPlanStore, new_mem_plan_store, find,
  first_entry, create, commit, update,
}
use brain.Persistence.PlanStore.Versions.{
  Op, create_op, update_op, apply, run, versions_count_deltas,
}

abbrev first_plan : BrainPlan
first_plan = record {
  id = pos 1;
  run_id = pos 8;
  brain_id = "central";
  version = pos 1;
  current_state = [];
  archived = false;
  created_at = 5;
  updated_at = 5;
}

abbrev unnumbered_plan : BrainPlan
unnumbered_plan = record first_plan { id = pos 0 }

abbrev first_row : MemPlanEntry
first_row = record { plan = first_plan; deltas = [] }

abbrev one_plan : MemPlanStore
one_plan = record { plans = (pos 1, first_row) ∷ []; id_seq = pos 0 }

abbrev second_version : BrainPlanDelta
second_version = record {
  id = pos 0;
  plan_id = pos 1;
  version = pos 2;
  op_type = "set";
  payload = 123 ∷ 125 ∷ [];
  actor = "central";
  created_at = 0;
}

abbrev rival : BrainPlanDelta
rival = record second_version { actor = "code" }

first_row_found : find one_plan (pos 1) ≡ some first_row
unfolding find Assoc.lookup
first_row_found = refl

abbrev some_ops : List Op
some_ops =
    create_op false 5 (some unnumbered_plan)
    ∷ update_op false 6 (pos 1) (some second_version)
    ∷ update_op false 7 (pos 1) (some rival)
    ∷ []

abbrev second_row : MemPlanEntry
second_row = commit (first_entry unnumbered_plan (pos 1) 5) second_version (pos 1) (pos 2) 6

second_row_found : find (run new_mem_plan_store some_ops) (pos 1) ≡ some second_row
unfolding run apply create update find Assoc.lookup Assoc.insert new_mem_plan_store
second_row_found = refl

versions_count_deltas_example : second_row.plan.version ≡ pos 2
versions_count_deltas_example =
    (versions_count_deltas some_ops (pos 1) second_row second_row_found (omega arith)).1

plans_of_run : list_by_run one_plan false (pos 8) ≡ ok (first_plan ∷ [])
unfolding list_by_run insertion_sort sort_onto sink
plans_of_run = refl
