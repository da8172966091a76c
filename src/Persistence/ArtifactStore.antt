-- ===== src/Persistence/ArtifactStore.antt =====
-- persistence/mem_artifact_store.go, with ComputeKey of persistence/cas.go: the contents of artifacts
-- by their hash, on top of the reference counts. The mutex is left out: each method runs as a whole
-- under it. SHA-256 with its hex form is a parameter; whether `ctx.Err()` is set when a call starts
-- and when it reaches the metadata, and the clocks of the two stores, are arguments. A reader is the
-- bytes that it reads.
pub mod Addressing
mod Tests
use brain.Prelude.{
  ℕ, String, Bool, ◌||◌, not, Option, none, some, List, [], ◌∷◌, if◌then◌else◌, nat_eq, string_eq,
  ◌==◌, is_some, concat, length,
}
use brain.Prelude.Int.{ℤ, pos, int_eq}
use brain.Prelude.Result.{Result, ok, err}
use brain.Prelude.Assoc
use brain.Prelude.Text.{Bytes}
use brain.Errors.Codes
use brain.Persistence.ArtifactMeta
use brain.Persistence.ArtifactMeta.{MetaStore, inc_ref_count}

pub record Artifact : Type 0 where
  pub kind : String
  pub content : Bytes
  pub caption : String

-- `MemArtifactStore`
pub record MemArtifactStore : Type 0 where
  pub bytes_by : List (String × Bytes)
  pub meta : MetaStore

pub new_mem_artifact_store : MetaStore → MemArtifactStore
new_mem_artifact_store meta = record { bytes_by = []; meta = meta }

pub record PutTimes : Type 0 where
  pub now : ℕ
  pub meta_now : ℕ
  pub ctx_err : Bool
  pub meta_ctx_err : Bool

pub detect_mime_type : Artifact → String
detect_mime_type a =
    if a.kind == "text"
      || a.kind == "log"
      || a.kind == "stdout"
      || a.kind == "stderr"
      || a.kind == "patch"
    then "text/plain; charset=utf-8"
    else if a.kind == "json"
    then "application/json"
    else if a.kind == "png"
    then "image/png"
    else if a.kind == "jpg" || a.kind == "jpeg"
    then "image/jpeg"
    else "application/octet-stream"

module _ (sha256_hex : Bytes → String) where
  pub compute_key : Bytes → String
  compute_key content = concat "sha256/" (sha256_hex content)

  abbrev new_meta : ℤ → Artifact → String → ℕ → ArtifactMeta.ArtifactMeta
  new_meta run_id a ref now = record {
    ref = ref;
    mime_type = detect_mime_type a;
    size_bytes = pos (length a.content);
    run_id = if not (run_id == pos 0) then some run_id else none;
    turn_index = none;
    caption = a.caption;
    ref_count = pos 1;
    tags = some (("kind", a.kind) ∷ []);
    created_at = now;
    updated_at = now;
  }

  -- The metadata of bytes that were there has been counted up.
  abbrev counted :
      MemArtifactStore → String → MetaStore × Option String → MemArtifactStore × Result String
  counted s ref (m, some code) = (record s { meta = m }, err code)
  counted s ref (m, none) = (record s { meta = m }, ok ref)

  -- The metadata of new bytes has been put; if this failed, the bytes go again.
  abbrev recorded :
      MemArtifactStore → String → MetaStore × Option String → MemArtifactStore × Result String
  recorded s ref (m, some code) =
      (record { bytes_by = Assoc.delete ref s.bytes_by; meta = m }, err code)
  recorded s ref (m, none) = (record s { meta = m }, ok ref)

  abbrev put_ref :
      MemArtifactStore
      → ℤ
      → Artifact
      → PutTimes
      → String
      → Option Bytes
      → MemArtifactStore × Result String
  put_ref s run_id a t ref (some there) =
      counted s ref (inc_ref_count s.meta t.meta_ctx_err t.meta_now ref)
  put_ref s run_id a t ref none =
      recorded (record s { bytes_by = Assoc.insert ref a.content s.bytes_by }) ref
        (ArtifactMeta.put s.meta t.meta_ctx_err t.meta_now (some (new_meta run_id a ref t.now)))

  pub put : MemArtifactStore → ℤ → Artifact → PutTimes → MemArtifactStore × Result String
  unfolding compute_key detect_mime_type
  put s run_id a t =
      let ref = compute_key a.content in
      if t.ctx_err
      then (s, err Codes.deadline_exceeded)
      else put_ref s run_id a t ref (Assoc.lookup ref s.bytes_by)

  abbrev bytes_of : Option Bytes → Result Bytes
  bytes_of none = err Codes.record_not_found
  bytes_of (some content) = ok content

  pub get : MemArtifactStore → Bool → String → Result Bytes
  get s ctx_err ref =
      if ctx_err then err Codes.deadline_exceeded else bytes_of (Assoc.lookup ref s.bytes_by)

  pub exists : MemArtifactStore → Bool → String → Result Bool
  exists s ctx_err ref =
      if ctx_err then err Codes.deadline_exceeded else ok (is_some (Assoc.lookup ref s.bytes_by))
