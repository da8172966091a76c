-- ===== src/Prelude/Sorting.antt =====
-- The insertion sort by swaps that the stores write out:
--   for i := 1; i < len(out); i++ { for j := i; j > 0 && out[j-1] > out[j]; j-- { swap } }
-- The sorted prefix is kept with its last element first, which is where the swaps start.
use brain.Prelude.{
  ◌≡◌, refl, sym, ap, ◌∙◌, inl, inr, false, List, [], ◌∷◌, ◌++◌, arith, if◌then◌else◌, Bool-cases,
  All, All-append,
}
use brain.Prelude.Int.{◌≤ℤ◌, ltb_ℤ, ℤ}
use mathlib.Core.List.{
  append_assoc, reverse-reverse, Perm, reverse, reverse-cons, append-nil, perm_middle,
}
use mathlib.Core.List.Perm

module _ {ℓ} {A : Type ℓ} (key : A → ℤ) where
  -- The inner loop: the new element passes every greater one.
  unfoldable pub sink : A → List A → List A
  sink x [] = x ∷ []
  sink x (y ∷ ys) = if ltb_ℤ (key x) (key y) then y ∷ sink x ys else x ∷ y ∷ ys

  -- The outer loop.
  unfoldable pub sort_onto : List A → List A → List A
  sort_onto done [] = done
  sort_onto done (x ∷ xs) = sort_onto (sink x done) xs

  unfoldable pub insertion_sort : List A → List A
  unfolding sort_onto sink
  insertion_sort xs = reverse (sort_onto [] xs)

  sink-perm : (x : A) (ys : List A) → Perm (sink x ys) (x ∷ ys)
  unfolding sink
  sink-perm x [] = Perm.refl (x ∷ [])
  sink-perm x (y ∷ ys) = elim (Bool-cases (ltb_ℤ (key x) (key y))) [
    | inl e ↦ rw e (Perm.trans (Perm.cons y (sink-perm x ys)) (Perm.swap x y ys))
    | inr e ↦ rw e (Perm.refl (x ∷ y ∷ ys))
  ]

  sort_onto-perm : (done xs : List A) → Perm (sort_onto done xs) (xs ++ done)
  unfolding sort_onto
  sort_onto-perm done [] = Perm.refl done
  sort_onto-perm done (x ∷ xs) =
      Perm.trans (sort_onto-perm (sink x done) xs)
        (Perm.trans (Perm.append (Perm.refl xs) (sink-perm x done)) (perm_middle xs done))

  -- No later element has a smaller key.
  abbrev pub IsAscending : List A → Type 0
  IsAscending [] = Unit
  IsAscending (x ∷ xs) = All (λ y. key x ≤ℤ key y) xs × IsAscending xs

  abbrev IsDescending : List A → Type 0
  IsDescending [] = Unit
  IsDescending (x ∷ xs) = All (λ y. key y ≤ℤ key x) xs × IsDescending xs

  sink-All : (P : A → Type 0) (x : A) (ys : List A) → P x → All P ys → All P (sink x ys)
  unfolding sink
  sink-All P x [] px h = (px, tt)
  sink-All P x (y ∷ ys) px h = elim (Bool-cases (ltb_ℤ (key x) (key y))) [
    | inl e ↦ rw e (h.0, sink-All P x ys px h.1)
    | inr e ↦ rw e (px, h)
  ]

  All-weaken : (P Q : A → Type 0) → ((a : A) → P a → Q a) → (xs : List A) → All P xs → All Q xs
  All-weaken P Q f [] h = tt
  All-weaken P Q f (x ∷ xs) h = (f x h.0, All-weaken P Q f xs h.1)

  sink-IsDescending : (x : A) (ys : List A) → IsDescending ys → IsDescending (sink x ys)
  unfolding sink
  sink-IsDescending x [] h = (tt, tt)
  sink-IsDescending x (y ∷ ys) h = elim (Bool-cases (ltb_ℤ (key x) (key y))) [
    | inl e ↦
        rw e (sink-All (λ z. key z ≤ℤ key y) x ys (ground arith) h.0, sink-IsDescending x ys h.1)
    | inr e ↦
        let y-le-x : key y ≤ℤ key x = ground arith in
        rw e (
          (
            y-le-x,
            All-weaken (λ z. key z ≤ℤ key y) (λ z. key z ≤ℤ key x) (λ z q. omega arith) ys h.0,
          ),
          h,
        )
  ]

  sort_onto-IsDescending : (done xs : List A) → IsDescending done → IsDescending (sort_onto done xs)
  unfolding sort_onto
  sort_onto-IsDescending done [] h = h
  sort_onto-IsDescending done (x ∷ xs) h =
      sort_onto-IsDescending (sink x done) xs (sink-IsDescending x done h)

  IsAscending-snoc :
      (xs : List A) (y : A)
      → IsAscending xs
      → All (λ x. key x ≤ℤ key y) xs
      → IsAscending (xs ++ y ∷ [])
  IsAscending-snoc [] y h k = (tt, tt)
  IsAscending-snoc (x ∷ xs) y h k =
      (All-append _ xs (y ∷ []) h.0 (k.0, tt), IsAscending-snoc xs y h.1 k.1)

  All-reverse : (P : A → Type 0) (xs : List A) → All P xs → All P (reverse xs)
  All-reverse P [] h = tt
  All-reverse P (x ∷ xs) h =
      rw reverse-cons (All-append P (reverse xs) (x ∷ []) (All-reverse P xs h.1) (h.0, tt))

  reverse-IsAscending : (xs : List A) → IsDescending xs → IsAscending (reverse xs)
  reverse-IsAscending [] h = tt
  reverse-IsAscending (x ∷ xs) h =
      rw reverse-cons
        (IsAscending-snoc (reverse xs) x (reverse-IsAscending xs h.1) (All-reverse _ xs h.0))

  reverse-perm : (xs : List A) → Perm (reverse xs) xs
  reverse-perm [] = Perm.refl []
  reverse-perm (x ∷ xs) =
      rw reverse-cons
        (Perm.trans (perm_middle (reverse xs) []) (rw append-nil (Perm.cons x (reverse-perm xs))))

  -- The loop sorts: its result holds the same elements, by ascending keys.
  pub insertion_sort_lem :
      (xs : List A) → Perm (insertion_sort xs) xs × IsAscending (insertion_sort xs)
  unfolding insertion_sort
  insertion_sort_lem xs = (
    Perm.trans (reverse-perm (sort_onto [] xs)) (rw append-nil at (sort_onto-perm [] xs)),
    reverse-IsAscending (sort_onto [] xs) (sort_onto-IsDescending [] xs tt),
  )

  -- The last element that was sunk is not greater than those to come.
  abbrev IsBelow : List A → List A → Type 0
  IsBelow [] xs = Unit
  IsBelow (d ∷ done) xs = All (λ x. key d ≤ℤ key x) xs

  sink-IsBelow : (x : A) (done xs : List A) → IsBelow done (x ∷ xs) → sink x done ≡ x ∷ done
  unfolding sink
  sink-IsBelow x [] xs h = refl
  sink-IsBelow x (d ∷ done) xs h =
      let e : ltb_ℤ (key x) (key d) ≡ false = ground (arith, h.0) in rw e refl

  sort_onto-IsAscending :
      (done xs : List A) → IsAscending xs → IsBelow done xs → sort_onto done xs ≡ reverse xs ++ done
  unfolding sort_onto
  sort_onto-IsAscending done [] h b = refl
  sort_onto-IsAscending done (x ∷ xs) h b =
      ap (λ d. sort_onto d xs) (sink-IsBelow x done xs b)
      ∙ sort_onto-IsAscending (x ∷ done) xs h.1 h.0
      ∙ sym (ap (λ l. l ++ done) (reverse-cons x xs) ∙ append_assoc (reverse xs) (x ∷ []) done)

  -- A sorted list stays as it is.
  pub insertion_sort-IsAscending : (xs : List A) → IsAscending xs → insertion_sort xs ≡ xs
  unfolding insertion_sort
  insertion_sort-IsAscending xs h =
      ap reverse (sort_onto-IsAscending [] xs h tt ∙ append-nil (reverse xs)) ∙ reverse-reverse xs
