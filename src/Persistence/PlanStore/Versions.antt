-- ===== src/Persistence/PlanStore/Versions.antt =====
-- The version of a plan counts its deltas, over every sequence of operations.
use brain.Persistence.PlanStore.Locking.{find-put_entry, Committed-at}
use mathlib.Core.Option.{some-injective}
use mathlib.Core.Path.{subst}
use brain.Prelude.Assoc
use brain.Prelude.{
  sym, Option-cases, ◌≢◌, false, true, ◌∙◌, length-append, none, is_some, ℕ, ◌+◌, ◌^◌, ◌≤◌, ◌≡◌,
  refl, ap, ◌⊎◌, inl, inr, Bool, Option, some, List, [], ◌∷◌, ◌++◌, arith, ◌==◌, nat_eq, string_eq,
  Bool-cases, length,
}
use brain.Prelude.Int.{eqb_ℤ_iff, ℤ, pos, ◌+ℤ◌, int_eq, wrap64}
use brain.Persistence.PlanStore.{
  next_id, delta_row, update_entry, new_mem_plan_store, archive_entry, is_some, BrainPlan,
  BrainPlanDelta, MemPlanEntry, MemPlanStore, find, first_entry, put_entry, create, commit, update,
  archive,
}

-- A call that may change the store: whether its context has ended, the clock, and its arguments.
pub data Op : Type 0 where
  create_op : Bool → ℕ → Option BrainPlan → Op
  update_op : Bool → ℕ → ℤ → Option BrainPlanDelta → Op
  archive_op : Bool → ℕ → ℤ → Op

unfoldable pub apply : MemPlanStore → Op → MemPlanStore
unfolding create update archive
apply s (create_op ctx_err now p) = (create s ctx_err now p).0
apply s (update_op ctx_err now id d) = (update s ctx_err now id d).0
apply s (archive_op ctx_err now id) = (archive s ctx_err now id).0

unfoldable pub run : MemPlanStore → List Op → MemPlanStore
unfolding apply
run s [] = s
run s (op ∷ ops) = run (apply s op) ops

-- The versions of the deltas are consecutive from `n`.
abbrev pub Consecutive : ℕ → List BrainPlanDelta → Type 0
Consecutive n [] = Unit
Consecutive n (d ∷ ds) = (d.version ≡ pos n) × Consecutive (n + 1) ds

-- As long as the deltas fit an int64 version.
pub record IsVersioned (e : MemPlanEntry) : Type 0 where
  pub exact : length e.deltas + 2 ≤ 2 ^ 63 → e.plan.version ≡ pos (length e.deltas + 1)
  pub consecutive : length e.deltas + 2 ≤ 2 ^ 63 → Consecutive 2 e.deltas

Consecutive-snoc :
    (n : ℕ) (ds : List BrainPlanDelta) (d : BrainPlanDelta)
    → Consecutive n ds
    → d.version ≡ pos (n + length ds)
    → Consecutive n (ds ++ d ∷ [])
Consecutive-snoc n [] d h e = (rw e (ap pos (omega arith)), tt)
Consecutive-snoc n (x ∷ ds) d h e =
    (h.0, Consecutive-snoc (n + 1) ds d h.1 (rw e (ap pos (omega arith))))

next_version : (n : ℕ) → n + 2 ≤ 2 ^ 63 → wrap64 (pos n +ℤ pos 1) ≡ pos (n + 1)
next_version n h = ground arith

first_entry-IsVersioned : (p : BrainPlan) (id : ℤ) (now : ℕ) → IsVersioned (first_entry p id now)
first_entry-IsVersioned p id now = record { exact = λ h. refl; consecutive = λ h. tt }

length-snoc :
    (ds : List BrainPlanDelta) (x : BrainPlanDelta) → length (ds ++ x ∷ []) ≡ length ds + 1
length-snoc ds x = length-append ds (x ∷ [])

snoc_exact :
    (ds : List BrainPlanDelta) (x : BrainPlanDelta) (v : ℤ)
    → (length ds + 2 ≤ 2 ^ 63 → v ≡ pos (length ds + 1))
    → length (ds ++ x ∷ []) + 2 ≤ 2 ^ 63
    → wrap64 (v +ℤ pos 1) ≡ pos (length (ds ++ x ∷ []) + 1)
snoc_exact ds x v h q =
    let n = length-snoc ds x in
    rw (h (omega (arith, n)), n) (next_version (length ds + 1) (omega (arith, n)))

commit-IsVersioned :
    (e : MemPlanEntry) (d : BrainPlanDelta) (id seq : ℤ) (now : ℕ)
    → IsVersioned e
    → IsVersioned (commit e d id seq now)
commit-IsVersioned e d id seq now h = record {
  exact = λ q. snoc_exact e.deltas _ e.plan.version h.exact q;
  consecutive = λ q.
      let n = length-snoc e.deltas (delta_row e d id seq now) in
      Consecutive-snoc 2 e.deltas _ (h.consecutive (omega (arith, n))) (
        snoc_exact e.deltas (delta_row e d id seq now) e.plan.version h.exact q
        ∙ ap pos (omega (arith, n)));
}

-- Every plan of the store stands under its id and is versioned.
pub record IsSound (s : MemPlanStore) : Type 0 where
  pub at : (id : ℤ) (e : MemPlanEntry) → find s id ≡ some e → (e.plan.id ≡ id) × IsVersioned e

-- An operation leaves the store alone, or puts one sound entry.
abbrev Change : MemPlanStore → MemPlanStore → Type 0
Change s s' =
    (s' ≡ s)
    ⊎ ((seq : ℤ) × (id : ℤ) × (e : MemPlanEntry) × (s' ≡ put_entry s seq id e)
        × (e.plan.id ≡ id)
        × IsVersioned e)

put-IsSound :
    (s : MemPlanStore) (seq id : ℤ) (e : MemPlanEntry)
    → (e.plan.id ≡ id)
    → IsVersioned e
    → IsSound s
    → IsSound (put_entry s seq id e)
put-IsSound s seq id e own v h = record {
  at = λ j x found. elim (Bool-cases (id == j)) [
    | inl same ↦
        let p = rw same at (sym (find-put_entry s seq id e j) ∙ found) in
        subst (λ y. (y.plan.id ≡ j) × IsVersioned y) (some-injective _ _ p)
          (own ∙ (eqb_ℤ_iff id j).0 same, v)
    | inr other ↦ h.at j x (rw other at (sym (find-put_entry s seq id e j) ∙ found))
  ];
}

Change-IsSound : (s s' : MemPlanStore) → Change s s' → IsSound s → IsSound s'
Change-IsSound s s' (inl e) h = rw e h
Change-IsSound s s' (inr (seq, id, e, p, own, v)) h = rw p (put-IsSound s seq id e own v h)

create-Change :
    (s : MemPlanStore) (ctx_err : Bool) (now : ℕ) (p : Option BrainPlan)
    → Change s (create s ctx_err now p).0
unfolding create
create-Change s ctx_err now none = inl refl
create-Change s true now (some p) = inl refl
create-Change s false now (some p) = elim (Bool-cases (p.id == pos 0)) [
  | inl z ↦ rw z (inr (_, _, _, refl, refl, first_entry-IsVersioned p _ now))
  | inr own ↦ elim (Bool-cases (is_some (find s p.id))) [
    | inl taken ↦ rw (own, taken) (inl refl)
    | inr free ↦ rw (own, free) (inr (_, _, _, refl, refl, first_entry-IsVersioned p _ now))
  ]
]

refused_unchanged :
    (s : MemPlanStore) (now : ℕ) (id : ℤ) (d : BrainPlanDelta) (o : Option MemPlanEntry)
    → (update_entry s now id d o).1 ≢ none
    → (update_entry s now id d o).0 ≡ s
refused_unchanged s now id d none h = refl
refused_unchanged s now id d (some e) h = ground arith

update-Change :
    (s : MemPlanStore) (now : ℕ) (id : ℤ) (d : BrainPlanDelta)
    → IsSound s
    → Change s (update_entry s now id d (find s id)).0
update-Change s now id d h = elim (Option-cases (update_entry s now id d (find s id)).1) [
  | inl done ↦
      let (e, found, live, fits, after) = Committed-at s now id d (find s id) done in
      let sound = h.at id e found in
      inr (
        next_id s,
        id,
        commit e d id (next_id s) now,
        after,
        sound.0,
        commit-IsVersioned e d id (next_id s) now sound.1,
      )
  | inr refused ↦ inl (refused_unchanged s now id d (find s id) (λ e. cc (e, refused.1)))
]

archive-Change :
    (s : MemPlanStore) (now : ℕ) (id : ℤ) (o : Option MemPlanEntry)
    → find s id ≡ o
    → IsSound s
    → Change s (archive_entry s now id o).0
archive-Change s now id none f h = inl refl
archive-Change s now id (some e) f h =
    let v = (h.at id e f).1 in
    inr (_, _, _, refl, (h.at id e f).0, record { exact = v.exact; consecutive = v.consecutive })

apply-IsSound : (s : MemPlanStore) (op : Op) → IsSound s → IsSound (apply s op)
unfolding apply
apply-IsSound s (create_op b now p) h = Change-IsSound s _ (create-Change s b now p) h
apply-IsSound s (update_op b now id none) h = h
apply-IsSound s (update_op true now id (some d)) h = h
apply-IsSound s (update_op false now id (some d)) h =
    Change-IsSound s _ (update-Change s now id d h) h
apply-IsSound s (archive_op true now id) h = h
apply-IsSound s (archive_op false now id) h =
    Change-IsSound s _ (archive-Change s now id (find s id) refl h) h

run-IsSound : (s : MemPlanStore) (ops : List Op) → IsSound s → IsSound (run s ops)
unfolding run
run-IsSound s [] h = h
run-IsSound s (op ∷ ops) h = run-IsSound (apply s op) ops (apply-IsSound s op h)

new-IsSound : IsSound new_mem_plan_store
unfolding new_mem_plan_store find Assoc.lookup
new-IsSound = record { at = λ id e found. absurd (ground arith) }

-- After any sequence of operations on a new store, failing ones included, every plan stands under
-- its id, its version is one more than the number of its deltas, and these carry the versions 2, 3
-- and so on, as long as their number keeps the version within int64.
pub versions_count_deltas :
    (ops : List Op) (id : ℤ) (e : MemPlanEntry)
    → find (run new_mem_plan_store ops) id ≡ some e
    → length e.deltas + 2 ≤ 2 ^ 63
    → (e.plan.id ≡ id) × (e.plan.version ≡ pos (length e.deltas + 1)) × Consecutive 2 e.deltas
versions_count_deltas ops id e found fits =
    let (own, v) = (run-IsSound new_mem_plan_store ops new-IsSound).at id e found in
    (own, v.exact fits, v.consecutive fits)
