-- ===== src/Policy/PathGlob/Matches.antt =====
-- What a glob means, and the memoised matcher against it.
use brain.Prelude.Assoc.{lookup, insert, lookup-insert}
use mathlib.Core.Bool.{false≢true}
use mathlib.Core.Path.{subst}
use mathlib.Core.Option.{some-injective}
use brain.Policy.PathGlob.{
  PathMatch, doublestar, Key, key_beq_iff, key_eq, Tables, no_tables, or_false, at_key, mark, store,
  normalize, split, validate, segment_matches, match_segments, match,
}
use brain.Prelude.Text.{Bytes, bytes_eq}
use brain.Prelude.{
  ℕ, zero, suc, ◌+◌, ◌<◌, ◌≡◌, refl, sym, ap, ◌∙◌, ◌↔◌, ◌⊎◌, inl, inr, Bool, true, false, ◌&&◌,
  ◌||◌, some, List, [], ◌∷◌, arith, if◌then◌else◌, nat_eq, string_eq, ◌==◌, Bool-cases,
  Option-cases, is_nil,
}

module _ (path_match : PathMatch) where
  -- The segments of a pattern and of a path that it matches: `**` stands for any number of segments,
  -- and any other segment of the pattern for one that `path.Match` lets it match.
  pub data Matches : List Bytes → List Bytes → Type 0 where
    done : Matches [] []
    skip :
        {p : Bytes} {pattern target : List Bytes}
        → (p == doublestar) ≡ true
        → Matches pattern target
        → Matches (p ∷ pattern) target
    take :
        {p t : Bytes} {pattern target : List Bytes}
        → (p == doublestar) ≡ true
        → Matches (p ∷ pattern) target
        → Matches (p ∷ pattern) (t ∷ target)
    one :
        {p t : Bytes} {pattern target : List Bytes}
        → (p == doublestar) ≡ false
        → path_match p t ≡ some true
        → Matches pattern target
        → Matches (p ∷ pattern) (t ∷ target)

  -- A matcher without a memo.
  plain : List Bytes → List Bytes → Bool
  plain [] target = is_nil target
  plain (p ∷ pattern) [] = (p == doublestar) && plain pattern []
  plain (p ∷ pattern) (t ∷ target) =
      let skipped = plain pattern (t ∷ target) || plain (p ∷ pattern) target in
      let stepped = segment_matches path_match p t && plain pattern target in
      if p == doublestar then skipped else stepped

  plain→Matches : (ps ts : List Bytes) → plain ps ts ≡ true → Matches ps ts
  unfolding plain
  plain→Matches [] [] h = done
  plain→Matches [] (t ∷ ts) h = absurd (cc)
  plain→Matches (p ∷ ps) [] h = skip (ground arith) (plain→Matches ps [] (ground arith))
  plain→Matches (p ∷ ps) (t ∷ ts) h = elim (Bool-cases (p == doublestar)) [
    | inl e ↦ elim (Bool-cases (plain ps (t ∷ ts))) [
      | inl a ↦ skip e (plain→Matches ps (t ∷ ts) a)
      | inr a ↦ take e (plain→Matches (p ∷ ps) ts (sym (rw (e, a) refl) ∙ h))
    ]
    | inr e ↦ elim (Option-cases (path_match p t)) [
      | inl o ↦ absurd (false≢true (sym (rw (e, o) refl) ∙ h))
      | inr (ok, o) ↦
          let both : ok && plain ps ts ≡ true = sym (rw (e, o) refl) ∙ h in
          one e (o ∙ ap some (ground arith)) (plain→Matches ps ts (ground arith))
    ]
  ]

  plain-skip :
      (p : Bytes) (ps ts : List Bytes)
      → (p == doublestar) ≡ true
      → plain ps ts ≡ true
      → plain (p ∷ ps) ts ≡ true
  unfolding plain
  plain-skip p ps [] e h = rw (e, h) refl
  plain-skip p ps (t ∷ ts) e h = rw (e, h) refl

  Matches→plain : {ps ts : List Bytes} → Matches ps ts → plain ps ts ≡ true
  unfolding plain
  Matches→plain done = refl
  Matches→plain (skip {p} {pattern} {target} e m) = plain-skip p pattern target e (Matches→plain m)
  Matches→plain (take {p} {t} {pattern} {target} e m) =
      let deeper = Matches→plain m in
      elim (Bool-cases (plain pattern (t ∷ target))) [
        | inl a ↦ rw (e, a) refl
        | inr a ↦ rw (e, a, deeper) refl
      ]
  Matches→plain (one {p} {t} {pattern} {target} e h m) =
      let both : segment_matches path_match p t && plain pattern target ≡ true =
        rw (h, Matches→plain m) refl in
      rw e both

  abbrev from : ℕ → List Bytes → List Bytes
  from zero xs = xs
  from (suc i) [] = []
  from (suc i) (x ∷ xs) = from i xs

  from-suc :
      (i : ℕ) (xs : List Bytes) {y : Bytes} {ys : List Bytes}
      → from i xs ≡ y ∷ ys
      → from (i + 1) xs ≡ ys
  from-suc zero [] h = absurd (cc)
  from-suc (suc i) [] h = absurd (cc)
  from-suc zero (x ∷ xs) h = ground arith
  from-suc (suc i) (x ∷ xs) h =
      let e : suc i + 1 ≡ suc (i + 1) = omega arith in ap (λ n. from n (x ∷ xs)) e ∙ from-suc i xs h

  -- Every key that is closed has the right answer; those that are open wait for theirs.
  module _ (P T : List Bytes) where
    abbrev Open : Type 1
    Open = ℕ → ℕ → Type 0

    abbrev Right : Open → Tables → Type 0
    Right o m =
        (i j : ℕ)
        → at_key (i, j) m.seen ≡ true
        → o i j ⊎ (at_key (i, j) m.memo ≡ plain (from i P) (from j T))

    abbrev opened : Open → ℕ → ℕ → Open
    opened o i j k l = o k l ⊎ ◌≡◌ {A = Key} (i, j) (k, l)

    at_key-insert :
        (key key' : Key) (b : Bool) (m : List (Key × Bool))
        → at_key key' (insert key b m) ≡ (if key == key' then b else at_key key' m)
    at_key-insert key key' b m =
        ap or_false (lookup-insert key key' b m)
        ∙ elim (Bool-cases (key == key')) [ inl e ↦ rw e refl | inr e ↦ rw e refl ]

    mark-Right :
        (o : Open) (i j : ℕ) (m : Tables) → Right o m → Right (opened o i j) (mark (i, j) m)
    mark-Right o i j m h k l seen = elim (Bool-cases (◌==◌ {A = Key} (i, j) (k, l))) [
      | inl e ↦ inl (inr ((key_beq_iff (i, j) (k, l)).0 e))
      | inr e ↦ widen (h k l (sym (rw (at_key-insert (i, j) (k, l) true m.seen, e) refl) ∙ seen))
    ]
      where
        widen : {A : Type 0} → o k l ⊎ A → opened o i j k l ⊎ A
        widen (inl a) = inl (inl a)
        widen (inr b) = inr b

    store-Right :
        (o : Open) (i j : ℕ) (b : Bool) (m : Tables)
        → b ≡ plain (from i P) (from j T)
        → Right (opened o i j) m
        → Right o (store (i, j) b m).1
    store-Right o i j b m right h k l seen = elim (Bool-cases (◌==◌ {A = Key} (i, j) (k, l))) [
      | inl e ↦
          let same = (key_beq_iff (i, j) (k, l)).0 e in
          inr (
            rw (at_key-insert (i, j) (k, l) b m.memo, e)
              (right ∙ ap (λ (q : Key). plain (from q.0 P) (from q.1 T)) same))
      | inr e ↦ settle e (h k l seen)
    ]
      where
        settle :
            (◌==◌ {A = Key} (i, j) (k, l)) ≡ false
            → opened o i j k l ⊎ (at_key (k, l) m.memo ≡ plain (from k P) (from l T))
            → o k l ⊎ (at_key (k, l) (insert (i, j) b m.memo) ≡ plain (from k P) (from l T))
        settle e (inl (inl a)) = inl a
        settle e (inl (inr q)) = absurd (false≢true (sym e ∙ (key_beq_iff (i, j) (k, l)).1 q))
        settle e (inr q) = inr (rw (at_key-insert (i, j) (k, l) b m.memo, e) q)

    abbrev Below : Open → ℕ → Type 0
    Below o n = (i j : ℕ) → o i j → i + j < n

    opened-Below : (o : Open) (i j n : ℕ) → Below o (i + j) → i + j < n → Below (opened o i j) n
    opened-Below o i j n h lt k l (inl a) = let b = h k l a in omega arith
    opened-Below o i j n h lt k l (inr q) =
        let a : i ≡ k = ap (λ (x : Key). x.0) q in
        let b : j ≡ l = ap (λ (x : Key). x.1) q in omega arith

    abbrev Answers : Open → List Bytes → List Bytes → Bool × Tables → Type 0
    Answers o ps ts r = (r.0 ≡ plain ps ts) × Right o r.1

    -- A key that has been seen and is not open is answered from the memo.
    recalled :
        (o : Open) (ps ts : List Bytes) (i j : ℕ) (m : Tables)
        → from i P ≡ ps
        → from j T ≡ ts
        → Below o (i + j)
        → Right o m
        → at_key (i, j) m.seen ≡ true
        → Answers o ps ts (at_key (i, j) m.memo, m)
    recalled o ps ts i j m hp ht hb h seen = (settle (h i j seen), h)
      where
        settle :
            o i j ⊎ (at_key (i, j) m.memo ≡ plain (from i P) (from j T))
            → at_key (i, j) m.memo ≡ plain ps ts
        settle (inl a) = let b = hb i j a in absurd (omega arith)
        settle (inr q) = q ∙ ap (λ l. plain l (from j T)) hp ∙ ap (plain ps) ht

    stored :
        (o : Open) (ps ts : List Bytes) (i j : ℕ) (b : Bool) (m : Tables)
        → from i P ≡ ps
        → from j T ≡ ts
        → b ≡ plain ps ts
        → Right (opened o i j) m
        → Answers o ps ts (store (i, j) b m)
    stored o ps ts i j b m hp ht right h = (
      right,
      store-Right o i j b m (right ∙ ap (plain ps) (sym ht) ∙ ap (λ l. plain l (from j T)) (sym hp))
          h,
    )

    abbrev answer : List Bytes → List Bytes → ℕ → ℕ → Tables → Bool × Tables
    answer = match_segments path_match

    -- What `match_segments` does with a key that it has not seen, in each of its cases.
    seen_before :
        (ps ts : List Bytes) (i j : ℕ) (m : Tables)
        → at_key (i, j) m.seen ≡ true
        → answer ps ts i j m ≡ (at_key (i, j) m.memo, m)
    unfolding match_segments
    seen_before [] ts i j m e = rw e refl
    seen_before (p ∷ ps) [] i j m e = rw e refl
    seen_before (p ∷ ps) (t ∷ ts) i j m e = rw e refl

    module _ (p : Bytes) (ps : List Bytes) (i j : ℕ) (m : Tables)
        (new : at_key (i, j) m.seen ≡ false) where
      star_at_end :
          (p == doublestar) ≡ true
          → let r = answer ps [] (i + 1) j (mark (i, j) m) in
            answer (p ∷ ps) [] i j m ≡ store (i, j) r.0 r.1
      unfolding match_segments
      star_at_end d = rw (new, d) refl

      none_left :
          (p == doublestar) ≡ false → answer (p ∷ ps) [] i j m ≡ store (i, j) false (mark (i, j) m)
      unfolding match_segments
      none_left d = rw (new, d) refl

      module _ (t : Bytes) (ts : List Bytes) where
        star_skips :
            (p == doublestar) ≡ true
            → (answer ps (t ∷ ts) (i + 1) j (mark (i, j) m)).0 ≡ true
            → answer (p ∷ ps) (t ∷ ts) i j m
              ≡ store (i, j) true (answer ps (t ∷ ts) (i + 1) j (mark (i, j) m)).1
        unfolding match_segments
        star_skips d a = rw (new, d, a) refl

        star_takes :
            (p == doublestar) ≡ true
            → let first = answer ps (t ∷ ts) (i + 1) j (mark (i, j) m) in
              first.0 ≡ false
              → let second = answer (p ∷ ps) ts i (j + 1) first.1 in
                answer (p ∷ ps) (t ∷ ts) i j m ≡ store (i, j) second.0 second.1
        unfolding match_segments
        star_takes d a = rw (new, d, a) refl

        segment_steps :
            (p == doublestar) ≡ false
            → segment_matches path_match p t ≡ true
            → let next = answer ps ts (i + 1) (j + 1) (mark (i, j) m) in
              answer (p ∷ ps) (t ∷ ts) i j m ≡ store (i, j) next.0 next.1
        unfolding match_segments
        segment_steps d a = rw (new, d, a) refl

        segment_fails :
            (p == doublestar) ≡ false
            → segment_matches path_match p t ≡ false
            → answer (p ∷ ps) (t ∷ ts) i j m ≡ store (i, j) false (mark (i, j) m)
        unfolding match_segments
        segment_fails d a = rw (new, d, a) refl

    answered :
        (o : Open) (ps ts : List Bytes) (i j : ℕ) (m : Tables) (b : Bool) (m' : Tables)
        → from i P ≡ ps
        → from j T ≡ ts
        → Right (opened o i j) m'
        → b ≡ plain ps ts
        → answer ps ts i j m ≡ store (i, j) b m'
        → Answers o ps ts (answer ps ts i j m)
    answered o ps ts i j m b m' hp ht h right e =
        subst (Answers o ps ts) (sym e) (stored o ps ts i j b m' hp ht right h)

    unless_seen :
        (ps ts : List Bytes) (o : Open) (i j : ℕ) (m : Tables)
        → from i P ≡ ps
        → from j T ≡ ts
        → Below o (i + j)
        → Right o m
        → (at_key (i, j) m.seen ≡ false → Answers o ps ts (answer ps ts i j m))
        → Answers o ps ts (answer ps ts i j m)
    unless_seen ps ts o i j m hp ht hb h new = elim (Bool-cases (at_key (i, j) m.seen)) [
      | inl e ↦
          subst (Answers o ps ts) (sym (seen_before ps ts i j m e))
            (recalled o ps ts i j m hp ht hb h e)
      | inr e ↦ new e
    ]

    match_segments-Answers :
        (ps ts : List Bytes) (o : Open) (i j : ℕ) (m : Tables)
        → from i P ≡ ps
        → from j T ≡ ts
        → Below o (i + j)
        → Right o m
        → Answers o ps ts (answer ps ts i j m)
    unfolding plain
    match_segments-Answers [] ts o i j m hp ht hb h = unless_seen [] ts o i j m hp ht hb h (λ new.
        answered o [] ts i j m (is_nil ts) (mark (i, j) m) hp ht (mark-Right o i j m h) refl
          (unfold match_segments in rw new refl))
    match_segments-Answers (p ∷ ps) [] o i j m hp ht hb h =
        unless_seen (p ∷ ps) [] o i j m hp ht hb h (λ new.
          let marked = mark-Right o i j m h in
          elim (Bool-cases (p == doublestar)) [
            | inr d ↦
                answered o (p ∷ ps) [] i j m false (mark (i, j) m) hp ht marked (sym (rw d refl))
                  (none_left p ps i j m new d)
            | inl d ↦
                let (right, kept) =
                  match_segments-Answers ps [] (opened o i j) (i + 1) j (mark (i, j) m)
                    (from-suc i P hp) ht (opened-Below o i j (i + 1 + j) hb (omega arith)) marked in
                answered o (p ∷ ps) [] i j m _ _ hp ht kept (right ∙ sym (rw d refl))
                  (star_at_end p ps i j m new d)
          ])
    match_segments-Answers (p ∷ ps) (t ∷ ts) o i j m hp ht hb h =
        unless_seen (p ∷ ps) (t ∷ ts) o i j m hp ht hb h (λ new.
          let marked = mark-Right o i j m h in
          let m' = mark (i, j) m in
          elim (Bool-cases (p == doublestar)) [
            | inr d ↦ elim (Bool-cases (segment_matches path_match p t)) [
              | inr a ↦
                  answered o (p ∷ ps) (t ∷ ts) i j m false m' hp ht marked (sym (rw (d, a) refl))
                    (segment_fails p ps i j m new t ts d a)
              | inl a ↦
                  let (right, kept) =
                    match_segments-Answers ps ts (opened o i j) (i + 1) (j + 1) m' (from-suc i P hp)
                      (from-suc j T ht) (opened-Below o i j (i + 1 + (j + 1)) hb (omega arith))
                      marked in
                  answered o (p ∷ ps) (t ∷ ts) i j m _ _ hp ht kept (right ∙ sym (rw (d, a) refl))
                    (segment_steps p ps i j m new t ts d a)
            ]
            | inl d ↦
                let first = answer ps (t ∷ ts) (i + 1) j m' in
                let (right, kept) =
                  match_segments-Answers ps (t ∷ ts) (opened o i j) (i + 1) j m' (from-suc i P hp)
                    ht (opened-Below o i j (i + 1 + j) hb (omega arith)) marked in
                elim (Bool-cases first.0) [
                  | inl a ↦
                      answered o (p ∷ ps) (t ∷ ts) i j m true first.1 hp ht kept
                        (sym (rw (d, sym right ∙ a) refl)) (star_skips p ps i j m new t ts d a)
                  | inr a ↦
                      let (right', kept') =
                        match_segments-Answers (p ∷ ps) ts (opened o i j) i (j + 1) first.1 hp
                          (from-suc j T ht) (opened-Below o i j (i + (j + 1)) hb (omega arith))
                          kept in
                      answered o (p ∷ ps) (t ∷ ts) i j m _ _ hp ht kept'
                        (right' ∙ sym (rw (d, sym right ∙ a) refl))
                        (star_takes p ps i j m new t ts d a)
                ]
          ])

  nothing_seen : (key : Key) → at_key key no_tables.seen ≡ false
  unfolding lookup
  nothing_seen key = refl

  -- The memo changes no answer: `Match` says yes exactly if the path matches the pattern.
  pub match_iff :
      (pattern target : Bytes)
      → validate path_match (normalize pattern) ≡ true
      → (match path_match pattern target ≡ some true)
        ↔ Matches (split (normalize pattern)) (split (normalize target))
  unfolding match
  match_iff pattern target valid =
      let P = split (normalize pattern) in
      let T = split (normalize target) in
      let right =
        (match_segments-Answers P T P T (λ i j. ⊥) 0 0 no_tables refl refl (λ i j h. absurd h)
          (λ i j h. absurd (false≢true (sym (nothing_seen (i, j)) ∙ h)))).0 in
      (
        λ h. plain→Matches P T (sym right ∙ some-injective _ _ (sym (rw valid refl) ∙ h)),
        λ h. rw valid (ap some (right ∙ Matches→plain h)),
      )
