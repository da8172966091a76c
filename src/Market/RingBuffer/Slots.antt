-- ===== src/Market/RingBuffer/Slots.antt =====
-- The slots of the ring, one write later.
use brain.Market.RingBuffer.{MarketSnapshot, zero_snapshot, Buffer, store, index, collect}
use brain.Prelude.{
  ℕ, ◌+◌, ◌-◌, ◌%◌, ◌≤◌, ◌<◌, ◌≡◌, sym, ap, ◌∙◌, ◌≢◌, ◌⊎◌, inl, inr, List, arith, ltb,
  if◌then◌else◌, Bool-cases, length, get_or, set, length-set, get_or-set_self, get_or-set_ne,
}
use native.Mathlib.Nat.{mod-eq_of_lt, mod-eq-sub-mod}

-- A number below twice the capacity, taken round the ring.
abbrev round : ℕ → ℕ → ℕ
round n x = if ltb x n then x else x - n

mod-round : (n x : ℕ) → 0 < n → x < n + n → x % n ≡ round n x
mod-round n x p h = elim (Bool-cases (ltb x n)) [
  | inl e ↦ rw e (mod-eq_of_lt (ground (arith, e)))
  | inr e ↦
      let above : n ≤ x = ground (arith, e) in
      rw e (mod-eq-sub-mod above ∙ mod-eq_of_lt (omega (arith, above, h)))
]

-- Both loops of the arithmetic: with a slot to spare, and with none.
round_grow :
    (n head i size : ℕ)
    → head < n
    → size < n
    → i ≤ size
    → round n (round n (head + 1) + i + n - (size + 1)) ≡ round n (head + i + n - size)
round_grow n head i size h k l = ground arith

round_turn :
    (n head i : ℕ)
    → head < n
    → i < n
    → round n (round n (head + 1) + i + n - n) ≡ round n (head + (i + 1) + n - n)
round_turn n head i h k = ground arith

round_last :
    (n head size : ℕ)
    → head < n
    → size < n
    → round n (round n (head + 1) + size + n - (size + 1)) ≡ head
round_last n head size h k = ground arith

module _ (A : Type 0) (z : A) where
  pub record IsValid (b : Buffer A z) : Type 0 where
    pub some_room : 0 < b.capacity
    pub slots : length b.entries ≡ b.capacity
    pub head_within : b.head < b.capacity
    pub size_within : b.size ≤ b.capacity

  abbrev pub contents : Buffer A z → List (MarketSnapshot A z)
  contents b = collect A z b 0 b.size

  abbrev pub slot : Buffer A z → ℕ → MarketSnapshot A z
  slot b i = get_or b.entries (index A z b i) (zero_snapshot A z)

  index-round :
      (b : Buffer A z) (i : ℕ)
      → IsValid b
      → i ≤ b.size
      → index A z b i ≡ round b.capacity (b.head + i + b.capacity - b.size)
  index-round b i v h =
      mod-round b.capacity (b.head + i + b.capacity - b.size) v.some_room
        (omega (arith, v.head_within, v.size_within, h))

  head-round :
      (b : Buffer A z) → IsValid b → (b.head + 1) % b.capacity ≡ round b.capacity (b.head + 1)
  head-round b v =
      mod-round b.capacity (b.head + 1) v.some_room (omega (arith, v.head_within, v.some_room))

  pub store-IsValid :
      (b : Buffer A z) (s : MarketSnapshot A z) → IsValid b → IsValid (store A z b s)
  unfolding store
  store-IsValid b s v = record {
    some_room = v.some_room;
    slots = length-set b.entries b.head s ∙ v.slots;
    head_within = rw (head-round b v) (ground (arith, v.head_within, v.some_room));
    size_within = ground (arith, v.size_within);
  }

  -- The size after a write.
  abbrev pub grown : Buffer A z → ℕ
  grown b = if ltb b.size b.capacity then b.size + 1 else b.size

  index-store :
      (b : Buffer A z) (s : MarketSnapshot A z) (i : ℕ)
      → IsValid b
      → i ≤ grown b
      → index A z (store A z b s) i
        ≡ round b.capacity (round b.capacity (b.head + 1) + i + b.capacity - grown b)
  unfolding store
  index-store b s i v h =
      index-round (store A z b s) i (store-IsValid b s v) h
      ∙ ap (λ j. round b.capacity (j + i + b.capacity - grown b)) (head-round b v)

  -- The slots keep their places while the ring is not full, and move by one once it is.
  pub index_grow :
      (b : Buffer A z) (s : MarketSnapshot A z) (i : ℕ)
      → IsValid b
      → b.size < b.capacity
      → i ≤ b.size
      → index A z (store A z b s) i ≡ index A z b i
  index_grow b s i v room h =
      let e : grown b ≡ b.size + 1 = ground (arith, room) in
      index-store b s i v (omega (arith, e, h))
      ∙ ap (λ k. round b.capacity (round b.capacity (b.head + 1) + i + b.capacity - k)) e
      ∙ round_grow b.capacity b.head i b.size v.head_within room h
      ∙ sym (index-round b i v h)

  pub index_turn :
      (b : Buffer A z) (s : MarketSnapshot A z) (i : ℕ)
      → IsValid b
      → b.size ≡ b.capacity
      → i < b.size
      → index A z (store A z b s) i ≡ index A z b (i + 1)
  index_turn b s i v full h =
      let e : grown b ≡ b.capacity = ground (arith, full) in
      index-store b s i v (omega (arith, e, h, full))
      ∙ ap (λ k. round b.capacity (round b.capacity (b.head + 1) + i + b.capacity - k)) e
      ∙ round_turn b.capacity b.head i v.head_within (omega (arith, full, h))
      ∙ ap (λ k. round b.capacity (b.head + (i + 1) + b.capacity - k)) (sym full)
      ∙ sym (index-round b (i + 1) v (omega (arith, h)))

  -- The last slot is the one that is written.
  index_last :
      (b : Buffer A z) (s : MarketSnapshot A z) (i : ℕ)
      → IsValid b
      → i + 1 ≡ grown b
      → index A z (store A z b s) i ≡ b.head
  index_last b s i v e =
      index-store b s i v (omega (arith, e)) ∙ ground (arith, e, v.head_within, v.size_within)

  pub slot_last :
      (b : Buffer A z) (s : MarketSnapshot A z) (i : ℕ)
      → IsValid b
      → i + 1 ≡ grown b
      → slot (store A z b s) i ≡ s
  unfolding store
  slot_last b s i v e =
      ap (λ j. get_or (set b.entries b.head s) j (zero_snapshot A z)) (index_last b s i v e)
      ∙ get_or-set_self b.entries b.head s (zero_snapshot A z)
          (omega (arith, v.slots, v.head_within))

  -- All other slots show what they did.
  pub slot_kept :
      (b : Buffer A z) (s : MarketSnapshot A z) (i j : ℕ)
      → index A z (store A z b s) i ≡ index A z b j
      → b.head ≢ index A z b j
      → slot (store A z b s) i ≡ slot b j
  unfolding store
  slot_kept b s i j e other =
      ap (λ k. get_or (set b.entries b.head s) k (zero_snapshot A z)) e
      ∙ get_or-set_ne b.entries s (zero_snapshot A z) other

  pub index_other :
      (b : Buffer A z) (j : ℕ)
      → IsValid b
      → j < b.size
      → (b.size < b.capacity) ⊎ (0 < j)
      → b.head ≢ index A z b j
  index_other b j v h k e =
      let q = e ∙ index-round b j v (omega (arith, h)) in
      absurd (ground (arith, q, v.head_within, v.size_within, h, k))
