-- ===== src/Persistence/ArtifactMeta/Counts.antt =====
-- The store refines a counter for each artifact.
use mathlib.Core.Option.{some-injective}
use mathlib.Core.Path.{subst}
use brain.Prelude.{
  ℕ, ◌+◌, ◌-◌, ◌^◌, ◌≤◌, ◌<◌, String, ◌≡◌, refl, sym, ap, ◌∙◌, inl, inr, Bool, true, false, ◌&&◌,
  not, Option, none, some, List, [], ◌∷◌, arith, if◌then◌else◌, nat_eq, string_eq, ◌==◌, Bool-cases,
  length,
}
use brain.Prelude.Int.{pos, ◌+ℤ◌, ◌-ℤ◌, leb_ℤ, int_eq, wrap64}
use brain.Persistence.ArtifactMeta.{
  ArtifactMeta, MetaStore, find, put_row, first_row, merge, put_at, put, inc_at, inc_ref_count,
  dec_at, dec_ref_count, some, pos, none, Option, List, ℕ,
}
use brain.Prelude.Assoc.{lookup-insert}

-- A call that may change the store: whether its context has ended, the clock, and its arguments.
pub data Op : Type 0 where
  put_op : Bool → ℕ → Option ArtifactMeta → Op
  inc_op dec_op : Bool → ℕ → String → Op

pub apply : MetaStore → Op → MetaStore
apply s (put_op ctx_err now m) = (put s ctx_err now m).0
apply s (inc_op ctx_err now ref) = (inc_ref_count s ctx_err now ref).0
apply s (dec_op ctx_err now ref) = (dec_ref_count s ctx_err now ref).0

pub run : MetaStore → List Op → MetaStore
run s [] = s
run s (op ∷ ops) = run (apply s op) ops

-- What an operation means for a counter that stops at 0.
abbrev pub counted : String → ℕ → Op → ℕ
counted ref n (put_op ctx_err now m) = n
counted ref n (inc_op ctx_err now j) = if not ctx_err && j == ref then n + 1 else n
counted ref n (dec_op ctx_err now j) = if not ctx_err && j == ref then n - 1 else n

unfoldable pub counted_all : String → ℕ → List Op → ℕ
counted_all ref n [] = n
counted_all ref n (op ∷ ops) = counted_all ref (counted ref n op) ops

-- The store has the artifact, with this count.
abbrev pub HasCount : MetaStore → String → ℕ → Type 0
HasCount s ref n = (row : ArtifactMeta) × (find s ref ≡ some row) × (row.ref_count ≡ pos n)

find-put_row :
    (s : MetaStore) (j : String) (row : ArtifactMeta) (ref : String)
    → find (put_row s j row) ref ≡ (if j == ref then some row else find s ref)
unfolding find put_row
find-put_row s j row ref = lookup-insert j ref row s.rows

-- A row that is written under `j` from the one that stood there.
put_row-HasCount :
    (s : MetaStore) (j ref : String) (row : ArtifactMeta) (n m : ℕ)
    → HasCount s ref n
    → (j ≡ ref → row.ref_count ≡ pos m)
    → ((j == ref) ≡ false → m ≡ n)
    → HasCount (put_row s j row) ref m
put_row-HasCount s j ref row n m (old, e, c) own other = elim (Bool-cases (j == ref)) [
  | inl same ↦
      (row, find-put_row s j row ref ∙ rw same refl, own ((string_eq.beq_iff j ref).0 same))
  | inr differ ↦ (old, find-put_row s j row ref ∙ rw differ e, c ∙ rw (other differ) refl)
]

found_count :
    (s : MetaStore) (j ref : String) (row : ArtifactMeta) (n : ℕ)
    → HasCount s ref n
    → find s j ≡ some row
    → j ≡ ref
    → row.ref_count ≡ pos n
found_count s j ref row n (old, e, c) found same =
    let same_row = some-injective _ _ (sym (subst (λ k. find s k ≡ some row) same found) ∙ e) in
    ap (λ (r : ArtifactMeta). r.ref_count) same_row ∙ c

not_missing :
    (s : MetaStore) (j ref : String) (n : ℕ) → HasCount s ref n → find s j ≡ none → j ≡ ref → ⊥
not_missing s j ref n (old, e, c) missing same =
    absurd (ground (arith, sym (subst (λ k. find s k ≡ none) same missing) ∙ e))

put_at-HasCount :
    (s : MetaStore) (m : ArtifactMeta) (now : ℕ) (ref : String) (n : ℕ) (o : Option ArtifactMeta)
    → HasCount s ref n
    → find s m.ref ≡ o
    → HasCount (put_at s m now o) ref n
put_at-HasCount s m now ref n none h e =
    put_row-HasCount s m.ref ref (first_row m now) n n h
      (λ same. absurd (not_missing s m.ref ref n h e same)) (λ differ. refl)
put_at-HasCount s m now ref n (some row) h e =
    put_row-HasCount s m.ref ref (merge row m now) n n h (found_count s m.ref ref row n h e)
      (λ differ. refl)

put-HasCount :
    (s : MetaStore) (ctx_err : Bool) (now : ℕ) (m : Option ArtifactMeta) (ref : String) (n : ℕ)
    → HasCount s ref n
    → HasCount (put s ctx_err now m).0 ref n
unfolding put
put-HasCount s ctx_err now none ref n h = h
put-HasCount s true now (some m) ref n h = elim (Bool-cases (m.ref == "")) [
  | inl unnamed ↦ rw unnamed h
  | inr named ↦ rw named h
]
put-HasCount s false now (some m) ref n h = elim (Bool-cases (m.ref == "")) [
  | inl unnamed ↦ rw unnamed h
  | inr named ↦ rw named (put_at-HasCount s m now ref n (find s m.ref) h refl)
]

inc_at-HasCount :
    (s : MetaStore) (now : ℕ) (j ref : String) (n : ℕ) (o : Option ArtifactMeta)
    → HasCount s ref n
    → n + 1 < 2 ^ 63
    → find s j ≡ o
    → HasCount (inc_at s now j o).0 ref (if j == ref then n + 1 else n)
inc_at-HasCount s now j ref n none h small e = elim (Bool-cases (j == ref)) [
  | inl same ↦ absurd (not_missing s j ref n h e ((string_eq.beq_iff j ref).0 same))
  | inr differ ↦ rw differ h
]
inc_at-HasCount s now j ref n (some row) h small e =
    put_row-HasCount s j ref
      (record row { ref_count = wrap64 (row.ref_count +ℤ pos 1); updated_at = now }) n _ h
      (λ same. ground (arith, found_count s j ref row n h e same, (string_eq.beq_iff j ref).1 same))
      (λ differ. rw differ refl)

kept_at_zero :
    (j ref : String) (row : ArtifactMeta) (n : ℕ)
    → (j ≡ ref → row.ref_count ≡ pos n)
    → leb_ℤ row.ref_count (pos 0) ≡ true
    → n ≡ (if j == ref then n - 1 else n)
kept_at_zero j ref row n count none_left = elim (Bool-cases (j == ref)) [
  | inl same ↦ rw same (ground (arith, count ((string_eq.beq_iff j ref).0 same)))
  | inr differ ↦ rw differ refl
]

dec_at-HasCount :
    (s : MetaStore) (now : ℕ) (j ref : String) (n : ℕ) (o : Option ArtifactMeta)
    → HasCount s ref n
    → n < 2 ^ 63
    → find s j ≡ o
    → HasCount (dec_at s now j o).0 ref (if j == ref then n - 1 else n)
dec_at-HasCount s now j ref n none h small e = elim (Bool-cases (j == ref)) [
  | inl same ↦ absurd (not_missing s j ref n h e ((string_eq.beq_iff j ref).0 same))
  | inr differ ↦ rw differ h
]
dec_at-HasCount s now j ref n (some row) h small e =
    elim (Bool-cases (leb_ℤ row.ref_count (pos 0))) [
      | inl none_left ↦ rw none_left (
          subst (HasCount s ref)
            (kept_at_zero j ref row n (found_count s j ref row n h e) none_left) h)
      | inr some_left ↦ rw some_left (
          put_row-HasCount s j ref
            (record row { ref_count = wrap64 (row.ref_count -ℤ pos 1); updated_at = now }) n _ h
            (λ same.
              ground (arith, found_count s j ref row n h e same, (string_eq.beq_iff j ref).1 same))
            (λ differ. rw differ refl))
    ]

apply-HasCount :
    (s : MetaStore) (op : Op) (ref : String) (n : ℕ)
    → HasCount s ref n
    → n + 1 < 2 ^ 63
    → HasCount (apply s op) ref (counted ref n op)
unfolding apply inc_ref_count dec_ref_count
apply-HasCount s (put_op ctx_err now m) ref n h small = put-HasCount s ctx_err now m ref n h
apply-HasCount s (inc_op true now j) ref n h small = h
apply-HasCount s (inc_op false now j) ref n h small =
    inc_at-HasCount s now j ref n (find s j) h small refl
apply-HasCount s (dec_op true now j) ref n h small = h
apply-HasCount s (dec_op false now j) ref n h small =
    dec_at-HasCount s now j ref n (find s j) h (omega arith) refl

counted_le : (ref : String) (n : ℕ) (op : Op) → counted ref n op ≤ n + 1
counted_le ref n op = ground arith

-- The count of an artifact that the store has is what a counter that stops at 0 holds after the same
-- operations: an increment or decrement of the artifact under a live context counts, a put or an
-- operation on another artifact does not, as long as the count fits an int64.
pub counts_refine :
    (s : MetaStore) (ops : List Op) (ref : String) (n : ℕ)
    → HasCount s ref n
    → n + length ops < 2 ^ 63
    → HasCount (run s ops) ref (counted_all ref n ops)
unfolding run counted_all
counts_refine s [] ref n h small = h
counts_refine s (op ∷ ops) ref n h small =
    counts_refine (apply s op) ops ref (counted ref n op)
      (apply-HasCount s op ref n h (omega arith)) (omega (arith, counted_le ref n op))
