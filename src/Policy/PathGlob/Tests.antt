-- ===== src/Policy/PathGlob/Tests.antt =====
-- Globs with a simple `path.Match`: `*` alone, or the very text.
use brain.Prelude.Assoc.{lookup, insert}
use brain.Prelude.Text.{Bytes, is_bytes, bytes_eq, bytes}
use brain.Policy.PathGlob.{PathMatch, normalize, split, validate, match}
use brain.Policy.PathGlob.Matches.{Matches, match_iff}
use brain.Prelude.{◌≡◌, refl, true, false, ◌||◌, none, some, [], ◌∷◌, nat_eq, string_eq, ◌==◌}

abbrev star : Bytes
star = 42 ∷ []

abbrev pub star_or_same : PathMatch
star_or_same p s = some (p == star || p == s)

any_depth : match star_or_same (bytes "src/**/*") (bytes "./src/a/b") ≡ some true
unfolding match bytes is_bytes lookup insert
any_depth = refl

no_depth : match star_or_same (bytes "src/**/b/**") (bytes "src") ≡ some false
unfolding match bytes is_bytes lookup insert
no_depth = refl

no_pattern : match star_or_same (bytes " ") (bytes "src") ≡ none
unfolding match bytes is_bytes lookup insert
no_pattern = refl

match_iff_example :
    Matches star_or_same
      (split (normalize (bytes "src/**/*")))
      (split (normalize (bytes "./src/a/b")))
match_iff_example =
    (match_iff star_or_same (bytes "src/**/*") (bytes "./src/a/b")
        (unfold validate bytes is_bytes in refl)).0
      any_depth
