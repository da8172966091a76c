-- ===== src/Market/RingBuffer/Tests.antt =====
-- A ring of two places, with three writes.
use brain.Prelude.{
  ℕ, String, ◌≡◌, refl, Option, none, some, List, [], ◌∷◌, map, arith, nat_eq, string_eq,
}
use brain.Prelude.Int.{ℤ, pos, int_eq}
use brain.Prelude.Assoc.{lookup, insert}
use brain.Prelude.Sorting.{sink, sort_onto, insertion_sort}
use brain.Market.RingBuffer.{
  MarketSnapshot, Buffer, new_buffer, store, write, collect, after_seq, read_since, snapshots,
  latest, restore_snapshots,
}
use brain.Market.RingBuffer.Recent.{write_all, numbered, write_all_lem}
use brain.Market.RingBuffer.Window.{latest_of}
use brain.Market.RingBuffer.Restored.{snapshots-restore_snapshots}

abbrev quote : String → ℕ → MarketSnapshot ℕ 0
quote symbol price = record { write_seq = 0; timestamp = pos 0; symbol = symbol; rest = price }

abbrev three_writes : List (ℤ × MarketSnapshot ℕ 0)
three_writes = (pos 5, quote "A" 10) ∷ (pos 6, quote "B" 20) ∷ (pos 7, quote "A" 30) ∷ []

abbrev two_places : Buffer ℕ 0
two_places = write_all ℕ 0 (new_buffer ℕ 0 (pos 2)) three_writes

abbrev kept : List (MarketSnapshot ℕ 0)
kept = latest_of (new_buffer ℕ 0 (pos 2)).capacity (numbered ℕ 0 0 three_writes)

latest_two : map (λ (s : MarketSnapshot ℕ 0). s.rest) (snapshots ℕ 0 two_places) ≡ 20 ∷ 30 ∷ []
unfolding snapshots collect write_all write store new_buffer insertion_sort sort_onto sink insert
latest_two = refl

latest_of_symbols :
    map {B = Option ℕ}
      (λ (symbol : String). elim (latest ℕ 0 two_places symbol) [
        | none ↦ none
        | some s ↦ some s.rest
      ])
      ("A" ∷ "" ∷ "C" ∷ [])
    ≡ some 30 ∷ some 30 ∷ none ∷ []
unfolding latest write_all write store new_buffer insert lookup
latest_of_symbols = refl

write_all_lem_example :
    (snapshots ℕ 0 two_places ≡ kept) × (read_since ℕ 0 two_places 2 ≡ after_seq ℕ 0 2 kept)
write_all_lem_example = write_all_lem ℕ 0 (pos 2) three_writes 2 (omega arith)

snapshots-restore_snapshots_example :
    (snapshots ℕ 0 (restore_snapshots ℕ 0 (new_buffer ℕ 0 (pos 2)) (snapshots ℕ 0 two_places))
      ≡ snapshots ℕ 0 two_places)
    × (read_since ℕ 0 (restore_snapshots ℕ 0 (new_buffer ℕ 0 (pos 2)) (snapshots ℕ 0 two_places)) 2
        ≡ read_since ℕ 0 two_places 2)
snapshots-restore_snapshots_example =
    snapshots-restore_snapshots ℕ 0 (pos 2) three_writes (new_buffer ℕ 0 (pos 2)) 2 (omega arith)
      (omega arith)
