-- ===== src/Market/RingBuffer/Restored.antt =====
-- A ring that is restored from the snapshots of another.
use mathlib.Core.List.{append-nil, append_assoc}
use brain.Prelude.{
  ℕ, ◌-◌, ◌^◌, ◌≤◌, ◌<◌, ◌≡◌, refl, sym, ap, ◌∙◌, List, [], ◌∷◌, ◌++◌, arith, ltb, if◌then◌else◌,
  length, replicate, length-replicate,
}
use brain.Prelude.Int.{ℤ}
use brain.Prelude.Sorting.{insertion_sort, IsAscending, insertion_sort-IsAscending}
use brain.Market.RingBuffer.{
  restore_from, MarketSnapshot, zero_snapshot, Buffer, new_buffer, store, after_seq, by_seq,
  read_since, snapshots, restore_snapshots,
}
use brain.Market.RingBuffer.Slots.{IsValid, contents, store-IsValid}
use brain.Market.RingBuffer.Contents.{push_within, collect_ext, contents-store}
use brain.Market.RingBuffer.Recent.{
  write_all, numbered, numbered-IsAscending, drop-IsAscending, after_seq-IsAscending,
  contents-empty, new_buffer-IsValid, write_all_lem,
}
use brain.Market.RingBuffer.Window.{latest_of, length-drop, push_within-latest_of, drop-nil}

module _ (A : Type 0) (z : A) where
  contents-restore_from :
      (b : Buffer A z) (all ss : List (MarketSnapshot A z))
      → IsValid A z b
      → contents A z b ≡ latest_of b.capacity all
      → contents A z (restore_from A z b ss) ≡ latest_of b.capacity (all ++ ss)
  unfolding restore_from store
  contents-restore_from b all [] v e = e ∙ ap (latest_of b.capacity) (sym (append-nil all))
  contents-restore_from b all (s ∷ ss) v e =
      let b1 : Buffer A z = record b {
        next_seq = if ltb b.next_seq s.write_seq then s.write_seq else b.next_seq;
      } in
      let v1 : IsValid A z b1 = record {
        some_room = v.some_room;
        slots = v.slots;
        head_within = v.head_within;
        size_within = v.size_within;
      } in
      let same : contents A z b1 ≡ contents A z b = collect_ext A z b1 b 0 0 b.size (λ j k. refl) in
      let pushed : contents A z (store A z b1 s) ≡ latest_of b.capacity (all ++ s ∷ []) =
        contents-store A z b1 s v1
        ∙ ap (λ q. push_within b.capacity q s) (same ∙ e)
        ∙ push_within-latest_of b.capacity all s v.some_room in
      contents-restore_from (store A z b1 s) (all ++ s ∷ []) ss (store-IsValid A z b1 s v1) pushed
      ∙ ap (latest_of b.capacity) (append_assoc all (s ∷ []) ss)

  contents-restore_snapshots :
      (b : Buffer A z) (ss : List (MarketSnapshot A z))
      → 0 < b.capacity
      → contents A z (restore_snapshots A z b ss) ≡ latest_of b.capacity ss
  unfolding restore_snapshots
  contents-restore_snapshots b ss h =
      let b0 : Buffer A z = record b {
        entries = replicate b.capacity (zero_snapshot A z);
        head = 0;
        size = 0;
        next_seq = 0;
        latest_by_symbol = [];
      } in
      contents-restore_from b0 [] ss
        (record {
          some_room = h;
          slots = length-replicate b.capacity (zero_snapshot A z);
          head_within = h;
          size_within = omega arith;
        })
        (contents-empty A z b0 refl ∙ sym (drop-nil (0 - b.capacity)))

  all_of_few {ℓ} : {B : Type ℓ} (n : ℕ) (l : List B) → length l ≤ n → latest_of n l ≡ l
  all_of_few n l h = let none_left : length l - n ≡ 0 = omega (arith, h) in rw none_left refl

  -- What Snapshots returns after fewer than 2^64 writes to a new buffer restores any buffer that has
  -- as many places or more, whatever it has held before: its Snapshots then returns the same list,
  -- and its ReadSince what ReadSince of the first buffer returns.
  pub snapshots-restore_snapshots :
      (capacity : ℤ) (ws : List (ℤ × MarketSnapshot A z)) (b' : Buffer A z) (seq : ℕ)
      → length ws < 2 ^ 64
      → (new_buffer A z capacity).capacity ≤ b'.capacity
      → let b = write_all A z (new_buffer A z capacity) ws in
        let r = restore_snapshots A z b' (snapshots A z b) in
        (snapshots A z r ≡ snapshots A z b) × (read_since A z r seq ≡ read_since A z b seq)
  unfolding snapshots read_since
  snapshots-restore_snapshots capacity ws b' seq h room =
      let b0 = new_buffer A z capacity in
      let b = write_all A z b0 ws in
      let n = length (numbered A z 0 ws) - b0.capacity in
      let l = latest_of b0.capacity (numbered A z 0 ws) in
      let a : IsAscending (by_seq A z) l =
        drop-IsAscending A z n (numbered A z 0 ws) (numbered-IsAscending A z 0 ws) in
      let (shown, since) = write_all_lem A z capacity ws seq h in
      let few : length l ≤ b'.capacity = omega (arith, length-drop n (numbered A z 0 ws), room) in
      let v = new_buffer-IsValid A z capacity in
      let held : contents A z (restore_snapshots A z b' (snapshots A z b)) ≡ l =
        contents-restore_snapshots b' (snapshots A z b) (omega (arith, v.some_room, room))
        ∙ ap (latest_of b'.capacity) shown
        ∙ all_of_few b'.capacity l few in
      (
        ap (insertion_sort (by_seq A z)) held
            ∙ insertion_sort-IsAscending (by_seq A z) l a
            ∙ sym shown,
        ap (λ ss. insertion_sort (by_seq A z) (after_seq A z seq ss)) held
            ∙ insertion_sort-IsAscending (by_seq A z) (after_seq A z seq l)
                (after_seq-IsAscending A z seq l a)
            ∙ sym since,
      )
