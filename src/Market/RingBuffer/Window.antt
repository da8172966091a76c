-- ===== src/Market/RingBuffer/Window.antt =====
-- The last elements of a list, as a queue of so many places keeps them.
use brain.Prelude.{
  ℕ, zero, suc, ◌-◌, ◌≤◌, ◌<◌, ◌≡◌, refl, sym, ◌∙◌, inl, inr, false, List, [], ◌∷◌, ◌++◌, arith,
  ltb, Bool-cases, length, length-append,
}
use brain.Market.RingBuffer.Contents.{tail, push_within}

abbrev pub drop {ℓ} : {A : Type ℓ} → ℕ → List A → List A
drop zero xs = xs
drop (suc n) [] = []
drop (suc n) (x ∷ xs) = drop n xs

-- The last `n` elements.
abbrev pub latest_of {ℓ} : {A : Type ℓ} → ℕ → List A → List A
latest_of n xs = drop (length xs - n) xs

pub length-drop {ℓ} : {A : Type ℓ} (n : ℕ) (xs : List A) → length (drop n xs) ≡ length xs - n
length-drop zero xs = omega arith
length-drop (suc n) [] = omega arith
length-drop (suc n) (x ∷ xs) = length-drop n xs ∙ omega arith

drop-snoc {ℓ} :
    {A : Type ℓ} (n : ℕ) (xs : List A) (x : A)
    → n < length xs
    → drop (suc n) (xs ++ x ∷ []) ≡ tail (drop n xs) ++ x ∷ []
drop-snoc n [] x h = absurd (omega arith)
drop-snoc zero (y ∷ xs) x h = refl
drop-snoc (suc n) (y ∷ xs) x h = drop-snoc n xs x (omega (arith, h))

pub push_within-latest_of {ℓ} :
    {A : Type ℓ} (n : ℕ) (xs : List A) (x : A)
    → 0 < n
    → push_within n (latest_of n xs) x ≡ latest_of n (xs ++ x ∷ [])
push_within-latest_of n xs x h = elim (Bool-cases (ltb (length xs) n)) [
  | inl e ↦
      let few : length xs - n ≡ 0 = ground (arith, e) in
      let few' : length (xs ++ x ∷ []) - n ≡ 0 = ground (arith, e, length-append xs (x ∷ [])) in
      rw (few, few', e) refl
  | inr e ↦
      let many : n ≤ length xs = ground (arith, e) in
      let q : length (xs ++ x ∷ []) - n ≡ suc (length xs - n) =
        omega (arith, many, length-append xs (x ∷ [])) in
      let full : ltb (length (drop (length xs - n) xs)) n ≡ false =
        ground (arith, length-drop (length xs - n) xs, many) in
      rw (q, full) (sym (drop-snoc (length xs - n) xs x (omega (arith, many, h))))
]

pub drop-nil {ℓ} : {A : Type ℓ} (n : ℕ) → drop {A = A} n [] ≡ []
drop-nil zero = refl
drop-nil (suc n) = refl
