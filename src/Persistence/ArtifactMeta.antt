-- ===== src/Persistence/ArtifactMeta.antt =====
-- persistence/mem_artifact_meta.go and persistence/artifact_meta.go: the reference counts of stored
-- artifacts. The mutex is left out: each method runs as a whole under it. The clock's reading, and
-- whether `ctx.Err()` is set, are arguments; a nil pointer or map is `none`; the zero time is 0.
pub mod Counts
mod Tests
use brain.Prelude.{
  ℕ, String, Bool, Option, none, some, List, [], if◌then◌else◌, nat_eq, string_eq, ◌==◌, is_some,
}
use brain.Prelude.Int.{ℤ, pos, ◌+ℤ◌, ◌-ℤ◌, ltb_ℤ, leb_ℤ, int_eq, wrap64}
use brain.Prelude.Result.{Result, ok, err}
use brain.Prelude.Assoc
use brain.Errors.Codes

pub record ArtifactMeta : Type 0 where
  pub ref : String
  pub mime_type : String
  pub size_bytes : ℤ
  pub run_id : Option ℤ
  pub turn_index : Option ℤ
  pub caption : String
  pub ref_count : ℤ
  pub tags : Option (List (String × String))
  pub created_at : ℕ
  pub updated_at : ℕ

-- `MemArtifactMetaStore`
pub record MetaStore : Type 0 where
  pub rows : List (String × ArtifactMeta)

-- `NewMemArtifactMetaStore`
abbrev pub new_meta_store : MetaStore
new_meta_store = record { rows = [] }

pub find : MetaStore → String → Option ArtifactMeta
find s ref = Assoc.lookup ref s.rows

-- `s.rows[ref] = row`
pub put_row : MetaStore → String → ArtifactMeta → MetaStore
put_row s ref row = record { rows = Assoc.insert ref row s.rows }

abbrev pub first_row : ArtifactMeta → ℕ → ArtifactMeta
first_row m now = record m {
  created_at = if m.created_at == 0 then now else m.created_at;
  updated_at = now;
  ref_count = if ltb_ℤ m.ref_count (pos 0) then pos 0 else m.ref_count;
}

abbrev or_else {ℓ} : {A : Type ℓ} → Option A → Option A → Option A
or_else none old = old
or_else (some new) old = some new

-- The non-zero fields of the incoming row win; the count and the first time stay.
abbrev pub merge : ArtifactMeta → ArtifactMeta → ℕ → ArtifactMeta
merge existing m now = record existing {
  mime_type = if m.mime_type == "" then existing.mime_type else m.mime_type;
  size_bytes = if m.size_bytes == pos 0 then existing.size_bytes else m.size_bytes;
  caption = if m.caption == "" then existing.caption else m.caption;
  run_id = or_else m.run_id existing.run_id;
  turn_index = or_else m.turn_index existing.turn_index;
  tags = or_else m.tags existing.tags;
  updated_at = now;
}

abbrev pub put_at : MetaStore → ArtifactMeta → ℕ → Option ArtifactMeta → MetaStore
put_at s m now none = put_row s m.ref (first_row m now)
put_at s m now (some existing) = put_row s m.ref (merge existing m now)

-- `Put`
pub put : MetaStore → Bool → ℕ → Option ArtifactMeta → MetaStore × Option String
unfolding find put_row
put s ctx_err now none = (s, some Codes.invalid_params)
put s ctx_err now (some m) =
    if m.ref == ""
    then (s, some Codes.invalid_params)
    else if ctx_err
    then (s, some Codes.deadline_exceeded)
    else (put_at s m now (find s m.ref), none)

abbrev row_of : Option ArtifactMeta → Result ArtifactMeta
row_of none = err Codes.record_not_found
row_of (some row) = ok row

-- `Get`
pub get : MetaStore → Bool → String → Result ArtifactMeta
unfolding find
get s ctx_err ref = if ctx_err then err Codes.deadline_exceeded else row_of (find s ref)

abbrev pub inc_at : MetaStore → ℕ → String → Option ArtifactMeta → MetaStore × Option String
inc_at s now ref none = (s, some Codes.record_not_found)
inc_at s now ref (some row) = (
  put_row s ref (record row { ref_count = wrap64 (row.ref_count +ℤ pos 1); updated_at = now }),
  none,
)

-- `IncRefCount`
pub inc_ref_count : MetaStore → Bool → ℕ → String → MetaStore × Option String
unfolding find put_row
inc_ref_count s ctx_err now ref =
    if ctx_err then (s, some Codes.deadline_exceeded) else inc_at s now ref (find s ref)

abbrev pub dec_at : MetaStore → ℕ → String → Option ArtifactMeta → MetaStore × Option String
dec_at s now ref none = (s, some Codes.record_not_found)
dec_at s now ref (some row) =
    if leb_ℤ row.ref_count (pos 0) then (s, some Codes.invariant_violated) else (
      put_row s ref (record row { ref_count = wrap64 (row.ref_count -ℤ pos 1); updated_at = now }),
      none,
    )

-- `DecRefCount`
pub dec_ref_count : MetaStore → Bool → ℕ → String → MetaStore × Option String
unfolding find put_row
dec_ref_count s ctx_err now ref =
    if ctx_err then (s, some Codes.deadline_exceeded) else dec_at s now ref (find s ref)

-- `Exists`
pub exists : MetaStore → String → Bool
unfolding find
exists s ref = is_some (find s ref)
