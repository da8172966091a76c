-- ===== src/Persistence/PlanStore/Locking.antt =====
-- The optimistic lock, and what each operation does to each plan.
use brain.Prelude.Assoc.{beq_refl, lookup-insert}
use brain.Prelude.{
  inr, inl, Bool-cases, ◌⊎◌, refl, Option, ◌∙◌, arith, ℕ, ◌≡◌, ◌≢◌, ◌↔◌, true, false, ◌&&◌, not,
  none, some, [], if◌then◌else◌, ◌==◌, nat_eq, string_eq,
}
use brain.Prelude.Int.{eqb_ℤ_iff, ℤ, pos, ◌+ℤ◌, int_eq, wrap64}
use brain.Prelude.Result.{ok, err}
use brain.Persistence.PlanStore.{
  update_entry, archive_entry, Option, get, put_entry, BrainPlan, BrainPlanDelta, MemPlanEntry,
  MemPlanStore, find, next_id, first_entry, create, commit, update, archive, deltas_for,
}
use brain.Errors.Codes

pub find-put_entry :
    (s : MemPlanStore) (seq id : ℤ) (e : MemPlanEntry) (j : ℤ)
    → find (put_entry s seq id e) j ≡ (if id == j then some e else find s j)
unfolding find
find-put_entry s seq id e j = lookup-insert id j e s.plans

-- A delta commits exactly if the plan exists, is not archived, and the delta's version is the one
-- after the plan's. Then the plan holds the committed entry and every other plan is as it was; else
-- the store is unchanged.
pub update_lem :
    (s : MemPlanStore) (now : ℕ) (id j : ℤ) (d : BrainPlanDelta) (e : MemPlanEntry)
    → find s id ≡ some e
    → let fits = not e.plan.archived && d.version == wrap64 (e.plan.version +ℤ pos 1) in
      let (s', error) = update s false now id (some d) in
      ((error ≡ none) ↔ (fits ≡ true))
      × (find s' j ≡ (if fits && id == j then some (commit e d id (next_id s) now) else find s j))
      × ((fits ≡ true) ⊎ (s' ≡ s))
unfolding update
update_lem s now id j d e h = rw h (
  ((λ x. ground arith), (λ x. ground arith)),
  ground (arith, find-put_entry s (next_id s) id (commit e d id (next_id s) now) j),
  elim (Bool-cases (not e.plan.archived && d.version == wrap64 (e.plan.version +ℤ pos 1))) [
    | inl fits ↦ inl fits
    | inr unfit ↦ inr (ground arith)
  ],
)

-- What an update that returned no error has done.
abbrev pub Committed :
    MemPlanStore → ℕ → ℤ → BrainPlanDelta → MemPlanStore → Option MemPlanEntry → Type 0
Committed s t id d s' o =
    (e : MemPlanEntry) × (o ≡ some e)
    × (e.plan.archived ≡ false)
    × (d.version ≡ wrap64 (e.plan.version +ℤ pos 1))
    × (s' ≡ put_entry s (next_id s) id (commit e d id (next_id s) t))

pub Committed-at :
    (s : MemPlanStore) (t : ℕ) (id : ℤ) (d : BrainPlanDelta) (o : Option MemPlanEntry)
    → (update_entry s t id d o).1 ≡ none
    → Committed s t id d (update_entry s t id d o).0 o
Committed-at s t id d none h = absurd (ground arith)
Committed-at s t id d (some e) h =
    (e, refl, ground arith, (eqb_ℤ_iff d.version _).0 (ground arith), ground arith)

pub update-Committed :
    (s : MemPlanStore) (t : ℕ) (id : ℤ) (d : BrainPlanDelta)
    → (update s false t id (some d)).1 ≡ none
    → Committed s t id d (update s false t id (some d)).0 (find s id)
unfolding update
update-Committed s t id d h = Committed-at s t id d (find s id) h

find-put_self :
    (s : MemPlanStore) (seq id : ℤ) (e : MemPlanEntry) → find (put_entry s seq id e) id ≡ some e
find-put_self s seq id e = find-put_entry s seq id e id ∙ rw (beq_refl id)

archived_refused :
    (s : MemPlanStore) (u : ℕ) (id : ℤ) (d : BrainPlanDelta) (e : MemPlanEntry)
    → find s id ≡ some e
    → e.plan.archived ≡ true
    → update s false u id (some d) ≡ (s, some Codes.workflow_precondition)
unfolding update
archived_refused s u id d e h a = rw (h, a)

archived_at :
    (s : MemPlanStore) (t : ℕ) (id : ℤ) (o : Option MemPlanEntry)
    → (archive_entry s t id o).1 ≡ none
    → (e : MemPlanEntry) × (e.plan.archived ≡ true)
      × ((archive_entry s t id o).0 ≡ put_entry s s.id_seq id e)
archived_at s t id none h = absurd (ground arith)
archived_at s t id (some e) h =
    (record e { plan = record e.plan { archived = true; updated_at = t } }, refl, refl)

-- Once a plan has been archived every update of it is refused and changes nothing.
update-archive :
    (s : MemPlanStore) (t u : ℕ) (id : ℤ) (d : BrainPlanDelta)
    → (archive s false t id).1 ≡ none
    → let s' = (archive s false t id).0 in
      update s' false u id (some d) ≡ (s', some Codes.workflow_precondition)
unfolding archive
update-archive s t u id d h =
    let (e, done, after) = archived_at s t id (find s id) h in
    rw after (archived_refused _ u id d e (find-put_self s s.id_seq id e) done)

-- The id of a plan that has one of its own is tested: a plan is refused if its id is taken.
pub create-taken :
    (s : MemPlanStore) (now : ℕ) (p : BrainPlan) (e : MemPlanEntry)
    → p.id ≢ pos 0
    → find s p.id ≡ some e
    → create s false now (some p) ≡ (s, err Codes.db_unique_violation)
unfolding create
create-taken s now p e own taken = ground (arith, eqb_ℤ_iff p.id (pos 0))

drawn_stored :
    (s : MemPlanStore) (now : ℕ) (p : BrainPlan)
    → p.id ≡ pos 0
    → create s false now (some p)
      ≡ (put_entry s (next_id s) (next_id s) (first_entry p (next_id s) now), ok (next_id s))
unfolding create
drawn_stored s now p z = ground arith

-- The id that is drawn for a plan without one is not tested: whatever plan stands under the next
-- number of the sequence, as a plan with that id of its own may do, is replaced, its deltas are
-- dropped, and the new plan is reported under its id.
pub create_overwrites :
    (s : MemPlanStore) (now : ℕ) (p : BrainPlan) (e : MemPlanEntry)
    → p.id ≡ pos 0
    → find s (next_id s) ≡ some e
    → let (s', id) = create s false now (some p) in
      (id ≡ ok (next_id s))
      × (get s' false (next_id s) ≡ ok (first_entry p (next_id s) now).plan)
      × (deltas_for s' (next_id s) ≡ [])
create_overwrites s now p e z taken =
    let stored = find-put_self s (next_id s) (next_id s) (first_entry p (next_id s) now) in
    rw (drawn_stored s now p z)
      (refl, unfold get in rw stored refl, unfold deltas_for in rw stored refl)
