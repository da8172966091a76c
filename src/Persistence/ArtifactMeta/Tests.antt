-- ===== src/Persistence/ArtifactMeta/Tests.antt =====
-- One artifact with two references.
use brain.Prelude.{
  ◌≡◌, true, refl, true, false, none, some, List, [], ◌∷◌, arith, nat_eq, string_eq,
}
use brain.Prelude.Int.{pos, int_eq}
use brain.Prelude.Assoc
use brain.Persistence.ArtifactMeta.{exists, ArtifactMeta, MetaStore, find}
use brain.Persistence.ArtifactMeta.Counts.{
  counted_all, Op, put_op, inc_op, dec_op, run, HasCount, counts_refine,
}

abbrev picture : ArtifactMeta
picture = record {
  ref = "sha256/ab";
  mime_type = "image/png";
  size_bytes = pos 10;
  run_id = some (pos 4);
  turn_index = none;
  caption = "";
  ref_count = pos 2;
  tags = none;
  created_at = 1;
  updated_at = 1;
}

abbrev one_picture : MetaStore
one_picture = record { rows = ("sha256/ab", picture) ∷ [] }

abbrev some_ops : List Op
some_ops =
    dec_op false 2 "sha256/ab"
    ∷ put_op false 3 (some picture)
    ∷ inc_op true 4 "sha256/ab"
    ∷ dec_op false 5 "sha256/ab"
    ∷ dec_op false 6 "sha256/ab"
    ∷ []

counts_refine_example : HasCount (run one_picture some_ops) "sha256/ab" 0
unfolding find Assoc.lookup counted_all
counts_refine_example =
    counts_refine one_picture some_ops "sha256/ab" 2 (picture, refl, refl) (omega arith)

picture_exists : exists one_picture "sha256/ab" ≡ true
unfolding exists find Assoc.lookup
picture_exists = refl
