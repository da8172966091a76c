-- ===== src/Prelude/Text/Paths.antt =====
-- What the sources use of Go's `path` and `path/filepath`, on slash-separated paths, and of the
-- functions of `strings` around them.
use brain.Prelude.Text.{bytes_eq, Bytes, drop}
use brain.Prelude.{
  ℕ, Bool, true, false, ◌&&◌, ◌||◌, Option, none, some, List, [], ◌∷◌, ◌++◌, if◌then◌else◌, nat_eq,
  string_eq, ◌==◌, length,
}
use mathlib.Core.List.{reverse}
pub mod Cleaned

abbrev pub slash : ℕ
slash = 47

-- `..` and `.`.
abbrev pub dot_dot : Bytes
dot_dot = 46 ∷ 46 ∷ []

abbrev pub dot : Bytes
dot = 46 ∷ []

unfoldable pub has_prefix : Bytes → Bytes → Bool
has_prefix s [] = true
has_prefix [] (p ∷ prefix) = false
has_prefix (b ∷ s) (p ∷ prefix) = b == p && has_prefix s prefix

unfoldable pub has_suffix : Bytes → Bytes → Bool
unfolding has_prefix
has_suffix s suffix = has_prefix (reverse s) (reverse suffix)

unfoldable pub trim_prefix : Bytes → Bytes → Bytes
unfolding has_prefix drop
trim_prefix s prefix = if has_prefix s prefix then drop (length prefix) s else s

-- `strings.ReplaceAll` of one byte by another.
unfoldable pub replace_byte : ℕ → ℕ → Bytes → Bytes
replace_byte old new [] = []
replace_byte old new (b ∷ s) = (if b == old then new else b) ∷ replace_byte old new s

abbrev to_head : ℕ → List Bytes → List Bytes
to_head b [] = (b ∷ []) ∷ []
to_head b (x ∷ xs) = (b ∷ x) ∷ xs

-- `strings.Split` at one byte.
unfoldable pub split_at : ℕ → Bytes → List Bytes
split_at sep [] = [] ∷ []
split_at sep (b ∷ s) = let rest = split_at sep s in if b == sep then [] ∷ rest else to_head b rest

-- `strings.Join` with one byte.
unfoldable pub join_with : ℕ → List Bytes → Bytes
join_with sep [] = []
join_with sep (x ∷ []) = x
join_with sep (x ∷ y ∷ xs) = x ++ sep ∷ join_with sep (y ∷ xs)

-- `filepath.IsAbs`.
unfoldable pub is_abs : Bytes → Bool
is_abs [] = false
is_abs (b ∷ s) = b == slash

-- One element more behind those of `out`, the last of which stands first.
unfoldable pub push_element : Bool → List Bytes → Bytes → List Bytes
push_element rooted out s =
    if s == [] || s == dot
    then out
    else if s == dot_dot
    then elim out [
      | [] ↦ if rooted then [] else dot_dot ∷ []
      | x ∷ xs ↦ if x == dot_dot then dot_dot ∷ x ∷ xs else xs
    ]
    else s ∷ out

unfoldable pub clean_from : Bool → List Bytes → List Bytes → List Bytes
unfolding push_element
clean_from rooted out [] = out
clean_from rooted out (s ∷ ss) = clean_from rooted (push_element rooted out s) ss

-- The elements of a path, without those that `Clean` takes away.
unfoldable pub cleaned : Bytes → List Bytes
unfolding clean_from split_at is_abs
cleaned s = reverse (clean_from (is_abs s) [] (split_at slash s))

abbrev or_dot : Bytes → Bytes
or_dot [] = dot
or_dot (b ∷ s) = b ∷ s

-- `path.Clean`, which is `filepath.Clean`.
unfoldable pub clean : Bytes → Bytes
unfolding cleaned join_with is_abs
clean s =
    if is_abs s then slash ∷ join_with slash (cleaned s) else or_dot (join_with slash (cleaned s))

-- `filepath.Join` of two paths: an empty one is left out.
unfoldable pub join_paths : Bytes → Bytes → Bytes
unfolding clean
join_paths [] [] = []
join_paths [] (c ∷ t) = clean (c ∷ t)
join_paths (b ∷ s) [] = clean (b ∷ s)
join_paths (b ∷ s) (c ∷ t) = clean ((b ∷ s) ++ slash ∷ c ∷ t)

abbrev pub up_elements : List Bytes → List Bytes → List Bytes
up_elements [] target = target
up_elements (x ∷ base) target = dot_dot ∷ up_elements base target

abbrev pub up : List Bytes → List Bytes → Option Bytes
unfolding join_with
up [] target = some (join_with slash target)
up (x ∷ base) target =
    if x == dot_dot then none else some (join_with slash (up_elements (x ∷ base) target))

-- The way from one path to another, by their elements.
unfoldable pub rel_elements : List Bytes → List Bytes → Option Bytes
unfolding up
rel_elements [] target = up [] target
rel_elements (x ∷ base) [] = up (x ∷ base) []
rel_elements (x ∷ base) (y ∷ target) =
    let rest = rel_elements base target in if x == y then rest else up (x ∷ base) (y ∷ target)

-- `filepath.Rel`: `none` where it is an error.
unfoldable pub rel : Bytes → Bytes → Option Bytes
unfolding clean cleaned rel_elements is_abs
rel base target =
    if clean base == clean target
    then some dot
    else if is_abs base
    then (if is_abs target then rel_elements (cleaned base) (cleaned target) else none)
    else (if is_abs target then none else rel_elements (cleaned base) (cleaned target))
