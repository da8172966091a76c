-- ===== src/Market/RingBuffer/Contents.antt =====
-- What a write does to the snapshots that the ring holds, in the order of their slots.
use brain.Market.RingBuffer.Slots.{
  IsValid, contents, slot, grown, index_grow, index_turn, slot_last, slot_kept, index_other,
}
use brain.Market.RingBuffer.{MarketSnapshot, Buffer, store, index, collect}
use brain.Prelude.{
  ℕ, zero, suc, ◌+◌, ◌-◌, ◌<◌, ◌≡◌, refl, sym, ap, ◌∙◌, inl, inr, List, [], ◌∷◌, ◌++◌, arith, ltb,
  if◌then◌else◌, Bool-cases, length,
}

-- A queue of so many places, which drops its first element where it is full.
abbrev pub tail {ℓ} : {A : Type ℓ} → List A → List A
tail [] = []
tail (x ∷ xs) = xs

abbrev pub push_within {ℓ} : {A : Type ℓ} → ℕ → List A → A → List A
push_within n q x = if ltb (length q) n then q ++ x ∷ [] else tail q ++ x ∷ []

module _ (A : Type 0) (z : A) where
  pub length-collect : (b : Buffer A z) (i n : ℕ) → length (collect A z b i n) ≡ n
  unfolding collect
  length-collect b i zero = refl
  length-collect b i (suc n) = ap suc (length-collect b (i + 1) n)

  pub collect-zero : (b : Buffer A z) → collect A z b 0 0 ≡ []
  unfolding collect
  collect-zero b = refl

  -- Two buffers that show the same in the same number of slots.
  pub collect_ext :
      (b b' : Buffer A z) (i i' n : ℕ)
      → ((j : ℕ) → j < n → slot A z b (i + j) ≡ slot A z b' (i' + j))
      → collect A z b i n ≡ collect A z b' i' n
  unfolding collect
  collect_ext b b' i i' zero h = refl
  collect_ext b b' i i' (suc n) h =
      let first : slot A z b i ≡ slot A z b' i' =
        ap (slot A z b) (omega arith) ∙ h 0 (omega arith) ∙ ap (slot A z b') (omega arith) in
      let rest = collect_ext b b' (i + 1) (i' + 1) n (λ j k.
        ap (slot A z b) (omega arith)
        ∙ h (j + 1) (omega (arith, k))
        ∙ ap (slot A z b') (omega arith)) in
      cc

  collect_snoc :
      (b : Buffer A z) (i n : ℕ)
      → collect A z b i (suc n) ≡ collect A z b i n ++ slot A z b (i + n) ∷ []
  unfolding collect
  collect_snoc b i zero = ap (λ j. slot A z b j ∷ []) (omega arith)
  collect_snoc b i (suc n) =
      ap (λ l. slot A z b i ∷ l)
        (collect_snoc b (i + 1) n
          ∙ ap (λ j. collect A z b (i + 1) n ++ slot A z b j ∷ []) (omega arith))

  contents-grown :
      (b : Buffer A z) (s : MarketSnapshot A z)
      → contents A z (store A z b s) ≡ collect A z (store A z b s) 0 (grown A z b)
  unfolding store
  contents-grown b s = refl

  tail-collect : (b : Buffer A z) (k : ℕ) → tail (collect A z b 0 (suc k)) ≡ collect A z b 1 k
  unfolding collect
  tail-collect b k = refl

  contents_grow :
      (b : Buffer A z) (s : MarketSnapshot A z)
      → IsValid A z b
      → b.size < b.capacity
      → contents A z (store A z b s) ≡ contents A z b ++ s ∷ []
  contents_grow b s v room =
      let e : grown A z b ≡ suc b.size = ground (arith, room) in
      let kept = collect_ext (store A z b s) b 0 0 b.size (λ j k.
        slot_kept A z b s (0 + j) (0 + j) (index_grow A z b s (0 + j) v room (omega (arith, k)))
          (index_other A z b (0 + j) v (omega (arith, k)) (inl room))) in
      let last = slot_last A z b s (0 + b.size) v (omega (arith, e)) in
      contents-grown b s
      ∙ ap (collect A z (store A z b s) 0) e
      ∙ collect_snoc (store A z b s) 0 b.size
      ∙ ap (λ l. l ++ slot A z (store A z b s) (0 + b.size) ∷ []) kept
      ∙ ap (λ x. contents A z b ++ x ∷ []) last

  contents_turn :
      (b : Buffer A z) (s : MarketSnapshot A z) (k : ℕ)
      → IsValid A z b
      → b.size ≡ b.capacity
      → b.size ≡ suc k
      → contents A z (store A z b s) ≡ tail (contents A z b) ++ s ∷ []
  contents_turn b s k v full q =
      let e : grown A z b ≡ suc k = ground (arith, full, q) in
      let kept = collect_ext (store A z b s) b 0 1 k (λ j h.
        slot_kept A z b s (0 + j) (1 + j)
          (index_turn A z b s (0 + j) v full (omega (arith, h, q)) ∙ ap (index A z b) (omega arith))
          (index_other A z b (1 + j) v (omega (arith, h, q)) (inr (omega arith)))) in
      let last = slot_last A z b s (0 + k) v (omega (arith, e)) in
      contents-grown b s
      ∙ ap (collect A z (store A z b s) 0) e
      ∙ collect_snoc (store A z b s) 0 k
      ∙ ap (λ l. l ++ slot A z (store A z b s) (0 + k) ∷ []) kept
      ∙ ap (λ x. collect A z b 1 k ++ x ∷ []) last
      ∙ ap (λ l. l ++ s ∷ []) (sym (tail-collect b k))
      ∙ ap (λ n. tail (collect A z b 0 n) ++ s ∷ []) (sym q)

  -- A write pushes its snapshot.
  pub contents-store :
      (b : Buffer A z) (s : MarketSnapshot A z)
      → IsValid A z b
      → contents A z (store A z b s) ≡ push_within b.capacity (contents A z b) s
  contents-store b s v = elim (Bool-cases (ltb b.size b.capacity)) [
    | inl e ↦ rw (length-collect b 0 b.size, e) (contents_grow b s v (ground (arith, e)))
    | inr e ↦
        let full : b.size ≡ b.capacity = ground (arith, e, v.size_within) in
        let q : b.size ≡ suc (b.size - 1) = omega (arith, full, v.some_room) in
        rw (length-collect b 0 b.size, e) (contents_turn b s (b.size - 1) v full q)
  ]
