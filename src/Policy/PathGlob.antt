-- ===== src/Policy/PathGlob.antt =====
-- internal/pathglob/pathglob.go: globs with `**` over the segments of a path, matched with a memo.
-- `path.Match` is an argument: `none` is its error for a malformed pattern.
pub mod Matches
pub mod Tests
use brain.Prelude.Text.Paths.{slash, dot, trim_prefix, replace_byte, split_at, clean}
use brain.Prelude.Text.{Bytes, bytes_eq, trim_space}
use brain.Prelude.Assoc.{lookup, insert}
use brain.Prelude.{
  ℕ, ◌+◌, ◌≡◌, ◌↔◌, Bool, true, false, ◌&&◌, ◌||◌, not, Option, none, some, List, [], ◌∷◌, arith,
  if◌then◌else◌, Eq, nat_eq, string_eq, ◌==◌, is_some, is_nil,
}

abbrev pub PathMatch : Type 0
PathMatch = Bytes → Bytes → Option Bool

-- `**`.
abbrev pub doublestar : Bytes
doublestar = 42 ∷ 42 ∷ []

-- `probe`.
abbrev probe : Bytes
probe = 112 ∷ 114 ∷ 111 ∷ 98 ∷ 101 ∷ []

-- The keys of the memo.
abbrev pub Key : Type 0
Key = ℕ × ℕ

abbrev key_beq : Key → Key → Bool
key_beq a b = a.0 == b.0 && a.1 == b.1

pub key_beq_iff : (a b : Key) → (key_beq a b ≡ true) ↔ (a ≡ b)
key_beq_iff (a, b) (c, d) = ground (arith, nat_eq.beq_iff a c, nat_eq.beq_iff b d)

instance abbrev pub key_eq : Eq Key
key_eq = record { beq = key_beq; beq_iff = key_beq_iff }

pub record Tables : Type 0 where
  pub memo : List (Key × Bool)
  pub seen : List (Key × Bool)

abbrev pub no_tables : Tables
no_tables = record { memo = []; seen = [] }

abbrev pub or_false : Option Bool → Bool
or_false none = false
or_false (some b) = b

-- A Go map's value, which is false for a key that is not there.
abbrev pub at_key : Key → List (Key × Bool) → Bool
at_key key m = or_false (lookup key m)

abbrev pub mark : Key → Tables → Tables
mark key m = record m { seen = insert key true m.seen }

-- `memo[key] = b`, and `b` is returned.
abbrev pub store : Key → Bool → Tables → Bool × Tables
store key b m = (b, record m { memo = insert key b m.memo })

unfoldable pub normalize : Bytes → Bytes
unfolding trim_space replace_byte clean trim_prefix
normalize v =
    let v' = clean (trim_space (replace_byte 92 slash v)) in
    if v' == dot then [] else trim_prefix v' (46 ∷ 47 ∷ [])

unfoldable pub split : Bytes → List Bytes
unfolding split_at
split [] = []
split (b ∷ s) = split_at slash (b ∷ s)

module _ (path_match : PathMatch) where
  unfoldable pub valid_segments : List Bytes → Bool
  valid_segments [] = true
  valid_segments (s ∷ ss) =
      (s == [] || s == doublestar || is_some (path_match s probe)) && valid_segments ss

  -- `Validate`: whether it returns no error.
  unfoldable pub validate : Bytes → Bool
  unfolding valid_segments normalize split_at
  validate pattern = let p = normalize pattern in not (p == []) && valid_segments (split_at slash p)

  -- `path.Match` of two segments, an error being no match.
  abbrev pub segment_matches : Bytes → Bytes → Bool
  segment_matches p t = or_false (path_match p t)

  -- `matchSegments` on the segments from `pi` and from `ti` on.
  unfoldable pub match_segments : List Bytes → List Bytes → ℕ → ℕ → Tables → Bool × Tables
  match_segments [] target pi ti m =
      let key : Key = (pi, ti) in
      if at_key key m.seen then (at_key key m.memo, m) else store key (is_nil target) (mark key m)
  match_segments (p ∷ pattern) [] pi ti m =
      let key : Key = (pi, ti) in
      let first = match_segments pattern [] (pi + 1) ti (mark key m) in
      let rest = store key first.0 first.1 in
      if at_key key m.seen
      then (at_key key m.memo, m)
      else if p == doublestar
      then rest
      else store key false (mark key m)
  match_segments (p ∷ pattern) (t ∷ target) pi ti m =
      let key : Key = (pi, ti) in
      let first = match_segments pattern (t ∷ target) (pi + 1) ti (mark key m) in
      let second = match_segments (p ∷ pattern) target pi (ti + 1) first.1 in
      let starred = elim first.0 as (λ _. Bool × Tables) [
        | true ↦ store key true first.1
        | false ↦ store key second.0 second.1
      ] in
      let next = match_segments pattern target (pi + 1) (ti + 1) (mark key m) in
      let stepped = store key next.0 next.1 in
      if at_key key m.seen
      then (at_key key m.memo, m)
      else if p == doublestar
      then starred
      else if segment_matches p t
      then stepped
      else store key false (mark key m)

  -- `Match`: `none` is the error of `Validate`.
  unfoldable pub match : Bytes → Bytes → Option Bool
  unfolding validate match_segments split normalize
  match pattern target =
      let p = normalize pattern in
      if validate p
      then some (match_segments (split p) (split (normalize target)) 0 0 no_tables).0
      else none
