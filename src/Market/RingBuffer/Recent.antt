-- ===== src/Market/RingBuffer/Recent.antt =====
-- The readers of the ring against their specification: the latest snapshots, in the order of their
-- writes.
use brain.Market.RingBuffer.Slots.{IsValid, contents, store-IsValid}
use brain.Market.RingBuffer.Contents.{push_within, collect-zero, collect_ext, contents-store}
use brain.Prelude.{
  ℕ, zero, suc, ◌+◌, ◌-◌, ◌^◌, ◌≤◌, ◌<◌, ◌≡◌, refl, sym, ap, ◌∙◌, inl, inr, List, [], ◌∷◌, ◌++◌,
  arith, ltb, if◌then◌else◌, Bool-cases, length, length-replicate, All,
}
use brain.Market.RingBuffer.Window.{drop, latest_of, push_within-latest_of, drop-nil}
use brain.Prelude.Int.{ℤ, pos, pos_part, ◌≤ℤ◌, leb_ℤ}
use brain.Prelude.Sorting.{insertion_sort, IsAscending, insertion_sort-IsAscending}
use brain.Market.RingBuffer.{
  MarketSnapshot, zero_snapshot, Buffer, new_buffer, store, stamp, write, collect, after_seq,
  by_seq, read_since, snapshots,
}
use mathlib.Core.List.{append-nil, append_assoc}
use native.Mathlib.Nat.{mod-eq_of_lt}

module _ (A : Type 0) (z : A) where
  -- Writes, each with the time of the clock.
  unfoldable pub write_all : Buffer A z → List (ℤ × MarketSnapshot A z) → Buffer A z
  write_all b [] = b
  write_all b ((now, s) ∷ ws) = write_all (write A z b now s).0 ws

  -- What the writes store, numbered from a number on.
  abbrev pub numbered : ℕ → List (ℤ × MarketSnapshot A z) → List (MarketSnapshot A z)
  numbered n [] = []
  numbered n ((now, s) ∷ ws) = stamp A z (n + 1) now s ∷ numbered (n + 1) ws

  write-store :
      (b : Buffer A z) (now : ℤ) (s : MarketSnapshot A z)
      → b.next_seq + 1 < 2 ^ 64
      → (write A z b now s).0
        ≡ store A z (record b { next_seq = b.next_seq + 1 }) (stamp A z (b.next_seq + 1) now s)
  unfolding write
  write-store b now s h =
      ap (λ n. store A z (record b { next_seq = n }) (stamp A z n now s)) (mod-eq_of_lt h)

  pub contents-write_all :
      (b : Buffer A z) (all : List (MarketSnapshot A z)) (ws : List (ℤ × MarketSnapshot A z))
      → IsValid A z b
      → contents A z b ≡ latest_of b.capacity all
      → b.next_seq + length ws < 2 ^ 64
      → contents A z (write_all b ws) ≡ latest_of b.capacity (all ++ numbered b.next_seq ws)
  unfolding write_all store
  contents-write_all b all [] v e h = e ∙ ap (latest_of b.capacity) (sym (append-nil all))
  contents-write_all b all ((now, s) ∷ ws) v e h =
      let b1 : Buffer A z = record b { next_seq = b.next_seq + 1 } in
      let s' = stamp A z (b.next_seq + 1) now s in
      let v1 : IsValid A z b1 = record {
        some_room = v.some_room;
        slots = v.slots;
        head_within = v.head_within;
        size_within = v.size_within;
      } in
      let same : contents A z b1 ≡ contents A z b = collect_ext A z b1 b 0 0 b.size (λ j k. refl) in
      let pushed : contents A z (store A z b1 s') ≡ latest_of b.capacity (all ++ s' ∷ []) =
        contents-store A z b1 s' v1
        ∙ ap (λ q. push_within b.capacity q s') (same ∙ e)
        ∙ push_within-latest_of b.capacity all s' v.some_room in
      ap (λ x. contents A z (write_all x ws)) (write-store b now s (omega (arith, h)))
      ∙ contents-write_all (store A z b1 s') (all ++ s' ∷ []) ws (store-IsValid A z b1 s' v1) pushed
          (omega (arith, h))
      ∙ ap (latest_of b.capacity) (append_assoc all (s' ∷ []) (numbered (b.next_seq + 1) ws))

  numbered-above :
      (n : ℕ) (ws : List (ℤ × MarketSnapshot A z)) (m : ℕ)
      → m ≤ n
      → All (λ (s : MarketSnapshot A z). pos m ≤ℤ by_seq A z s) (numbered n ws)
  numbered-above n [] m h = tt
  numbered-above n ((now, s) ∷ ws) m h =
      (omega (arith, h), numbered-above (n + 1) ws m (omega (arith, h)))

  pub numbered-IsAscending :
      (n : ℕ) (ws : List (ℤ × MarketSnapshot A z)) → IsAscending (by_seq A z) (numbered n ws)
  numbered-IsAscending n [] = tt
  numbered-IsAscending n ((now, s) ∷ ws) =
      (numbered-above (n + 1) ws (n + 1) (omega arith), numbered-IsAscending (n + 1) ws)

  pub drop-IsAscending :
      (n : ℕ) (ss : List (MarketSnapshot A z))
      → IsAscending (by_seq A z) ss
      → IsAscending (by_seq A z) (drop n ss)
  drop-IsAscending zero ss h = h
  drop-IsAscending (suc n) [] h = h
  drop-IsAscending (suc n) (s ∷ ss) h = drop-IsAscending n ss h.1

  after_seq-All :
      (P : MarketSnapshot A z → Type 0) (seq : ℕ) (ss : List (MarketSnapshot A z))
      → All P ss
      → All P (after_seq A z seq ss)
  unfolding after_seq
  after_seq-All P seq [] h = tt
  after_seq-All P seq (s ∷ ss) h = elim (Bool-cases (ltb seq s.write_seq)) [
    | inl e ↦ rw e (h.0, after_seq-All P seq ss h.1)
    | inr e ↦ rw e (after_seq-All P seq ss h.1)
  ]

  pub after_seq-IsAscending :
      (seq : ℕ) (ss : List (MarketSnapshot A z))
      → IsAscending (by_seq A z) ss
      → IsAscending (by_seq A z) (after_seq A z seq ss)
  unfolding after_seq
  after_seq-IsAscending seq [] h = tt
  after_seq-IsAscending seq (s ∷ ss) h = elim (Bool-cases (ltb seq s.write_seq)) [
    | inl e ↦ rw e (after_seq-All _ seq ss h.0, after_seq-IsAscending seq ss h.1)
    | inr e ↦ rw e (after_seq-IsAscending seq ss h.1)
  ]

  pub contents-empty : (b : Buffer A z) → b.size ≡ 0 → contents A z b ≡ []
  contents-empty b e = ap (collect A z b 0) e ∙ collect-zero A z b

  pub new_buffer-IsValid : (capacity : ℤ) → IsValid A z (new_buffer A z capacity)
  unfolding new_buffer
  new_buffer-IsValid capacity =
      let n = if leb_ℤ capacity (pos 0) then 1024 else pos_part capacity in
      record {
        some_room = ground arith;
        slots = length-replicate n (zero_snapshot A z);
        head_within = ground arith;
        size_within = omega arith;
      }

  pub contents-new_buffer :
      (capacity : ℤ)
      → contents A z (new_buffer A z capacity) ≡ latest_of (new_buffer A z capacity).capacity []
  unfolding new_buffer
  contents-new_buffer capacity =
      contents-empty (new_buffer A z capacity) refl
      ∙ sym (drop-nil (0 - (new_buffer A z capacity).capacity))

  -- After any sequence of fewer than 2^64 writes to a new buffer, Snapshots returns the latest of
  -- them, as many as the buffer has places, oldest first, each as its Write stored it: numbered from 1
  -- in the order of the writes, and with the clock's time where it had none. ReadSince returns those
  -- of them whose number is above the given one, in the same order.
  pub write_all_lem :
      (capacity : ℤ) (ws : List (ℤ × MarketSnapshot A z)) (seq : ℕ)
      → length ws < 2 ^ 64
      → let b = write_all (new_buffer A z capacity) ws in
        let latest_ones = latest_of (new_buffer A z capacity).capacity (numbered 0 ws) in
        (snapshots A z b ≡ latest_ones) × (read_since A z b seq ≡ after_seq A z seq latest_ones)
  unfolding snapshots read_since new_buffer
  write_all_lem capacity ws seq h =
      let b0 = new_buffer A z capacity in
      let b = write_all b0 ws in
      let l = latest_of b0.capacity (numbered 0 ws) in
      let e : contents A z b ≡ l =
        contents-write_all b0 [] ws (new_buffer-IsValid capacity) (contents-new_buffer capacity)
          (omega (arith, h)) in
      let a : IsAscending (by_seq A z) l =
        drop-IsAscending (length (numbered 0 ws) - b0.capacity) (numbered 0 ws)
          (numbered-IsAscending 0 ws) in
      (
        ap (insertion_sort (by_seq A z)) e ∙ insertion_sort-IsAscending (by_seq A z) l a,
        ap (λ ss. insertion_sort (by_seq A z) (after_seq A z seq ss)) e
            ∙ insertion_sort-IsAscending (by_seq A z) (after_seq A z seq l)
                (after_seq-IsAscending seq l a),
      )
