-- ===== src/Persistence/ArtifactStore/Tests.antt =====
-- Two artifacts, under a hash that is the length.
use brain.Prelude.{
  refl, Bool, map, String, ◌≡◌, true, false, [], ◌∷◌, nat_eqb, if◌then◌else◌, nat_eq, string_eq,
  length,
}
use brain.Prelude.Int.{pos, int_eq}
use brain.Prelude.Result.{ok, err}
use brain.Prelude.Assoc.{lookup}
use brain.Prelude.Text.{Bytes}
use brain.Errors.Codes
use brain.Persistence.ArtifactMeta.{new_meta_store}
use brain.Persistence.ArtifactStore.{ok, Bool, Artifact, MemArtifactStore, PutTimes, put, exists}
use brain.Persistence.ArtifactStore.Addressing.{IsAddressed, Stores, put_lem}

abbrev length_hex : Bytes → String
length_hex s = if nat_eqb (length s) 2 then "2" else "?"

abbrev a_text : Artifact
a_text = record { kind = "log"; content = 104 ∷ 105 ∷ []; caption = "" }

abbrev other_text : Artifact
other_text = record { kind = "log"; content = 104 ∷ 111 ∷ []; caption = "" }

abbrev in_time : PutTimes
in_time = record { now = 5; meta_now = 5; ctx_err = false; meta_ctx_err = false }

abbrev empty_store : MemArtifactStore
empty_store = record { bytes_by = []; meta = new_meta_store }

empty-IsAddressed : IsAddressed length_hex empty_store
unfolding IsAddressed lookup
empty-IsAddressed ref content h = absurd (cc)

-- It holds the first text.
abbrev with_text : MemArtifactStore
with_text = (put length_hex empty_store (pos 1) a_text in_time).0

with_text-IsAddressed : IsAddressed length_hex with_text
with_text-IsAddressed = (put_lem length_hex empty_store (pos 1) a_text in_time empty-IsAddressed).0

nothing_yet :
    map (λ (ctx_err : Bool). exists length_hex empty_store ctx_err "sha256/2") (true ∷ false ∷ [])
    ≡ err Codes.deadline_exceeded ∷ ok false ∷ []
unfolding exists lookup
nothing_yet = refl

put_lem_example :
    IsAddressed length_hex (put length_hex with_text (pos 1) other_text in_time).0
    × Stores length_hex with_text other_text (put length_hex with_text (pos 1) other_text in_time)
put_lem_example = put_lem length_hex with_text (pos 1) other_text in_time with_text-IsAddressed
