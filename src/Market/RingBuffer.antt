-- ===== src/Market/RingBuffer.antt =====
-- internal/data/ring/ring.go: the buffer of the latest market snapshots. What the buffer only hands
-- through of a snapshot is a parameter, with its zero value; a value is its own clone. The mutex is
-- left out: each method runs as a whole under it. `sort.SliceStable` is the stable sort of
-- `Prelude.Sorting`.
pub mod Slots
pub mod Contents
pub mod Window
pub mod Recent
pub mod Restored
mod Tests
use brain.Prelude.{
  ℕ, zero, suc, ◌+◌, ◌-◌, ◌%◌, ◌^◌, String, not, Option, none, some, List, [], ◌∷◌, ltb,
  if◌then◌else◌, nat_eq, string_eq, ◌==◌, get_or, set, replicate,
}
use brain.Prelude.Int.{ℤ, pos, pos_part, leb_ℤ, int_eq}
use brain.Prelude.Assoc.{lookup, insert}
use brain.Prelude.Sorting.{insertion_sort}

module _ (A : Type 0) (zero_rest : A) where
  pub record MarketSnapshot : Type 0 where
    pub write_seq : ℕ
    pub timestamp : ℤ
    pub symbol : String
    pub rest : A

  abbrev pub zero_snapshot : MarketSnapshot
  zero_snapshot = record { write_seq = 0; timestamp = pos 0; symbol = ""; rest = zero_rest }

  pub record Buffer : Type 0 where
    pub capacity : ℕ
    pub entries : List MarketSnapshot
    pub head : ℕ
    pub size : ℕ
    pub next_seq : ℕ
    pub latest_by_symbol : List (String × MarketSnapshot)

  -- `New`
  pub new_buffer : ℤ → Buffer
  new_buffer capacity =
      let n = if leb_ℤ capacity (pos 0) then 1024 else pos_part capacity in
      record {
        capacity = n;
        entries = replicate n zero_snapshot;
        head = 0;
        size = 0;
        next_seq = 0;
        latest_by_symbol = [];
      }

  -- What `Write` and `RestoreSnapshots` do alike.
  pub store : Buffer → MarketSnapshot → Buffer
  store b s = record b {
    entries = set b.entries b.head s;
    head = (b.head + 1) % b.capacity;
    size = if ltb b.size b.capacity then b.size + 1 else b.size;
    latest_by_symbol =
        if s.symbol == "" then b.latest_by_symbol else insert s.symbol s b.latest_by_symbol;
  }

  -- The snapshot as `Write` stores it, under the next number and at this time.
  abbrev pub stamp : ℕ → ℤ → MarketSnapshot → MarketSnapshot
  stamp seq now s = record s {
    timestamp = if s.timestamp == pos 0 then now else s.timestamp;
    write_seq = seq;
  }

  -- The number is a uint64.
  pub write : Buffer → ℤ → MarketSnapshot → Buffer × MarketSnapshot
  unfolding store
  write b now s =
      let seq = (b.next_seq + 1) % 2 ^ 64 in
      let s' = stamp seq now s in (store (record b { next_seq = seq }) s', s')

  -- Where the loops of the readers look for their i-th snapshot. The terms are in another order than
  -- in the code, so that no part of the sum is below 0.
  abbrev pub index : Buffer → ℕ → ℕ
  index b i = (b.head + i + b.capacity - b.size) % b.capacity

  pub collect : Buffer → ℕ → ℕ → List MarketSnapshot
  collect b i zero = []
  collect b i (suc n) = get_or b.entries (index b i) zero_snapshot ∷ collect b (i + 1) n

  pub after_seq : ℕ → List MarketSnapshot → List MarketSnapshot
  after_seq seq [] = []
  after_seq seq (s ∷ ss) =
      let rest = after_seq seq ss in if ltb seq s.write_seq then s ∷ rest else rest

  abbrev pub by_seq : MarketSnapshot → ℤ
  by_seq s = pos s.write_seq

  pub read_since : Buffer → ℕ → List MarketSnapshot
  unfolding collect after_seq
  read_since b seq = insertion_sort by_seq (after_seq seq (collect b 0 b.size))

  pub snapshots : Buffer → List MarketSnapshot
  unfolding collect
  snapshots b = insertion_sort by_seq (collect b 0 b.size)

  -- `Latest`, and `Snapshot`.
  pub latest : Buffer → String → Option MarketSnapshot
  latest b symbol =
      if not (symbol == "")
      then lookup symbol b.latest_by_symbol
      else if b.size == 0
      then none
      else let s =
          get_or b.entries (if b.head == 0 then b.capacity - 1 else b.head - 1) zero_snapshot in
        if s.write_seq == 0 then none else some s

  restore_from : Buffer → List MarketSnapshot → Buffer
  unfolding store
  restore_from b [] = b
  restore_from b (s ∷ ss) =
      restore_from
        (store
          (record b { next_seq = if ltb b.next_seq s.write_seq then s.write_seq else b.next_seq })
          s)
        ss

  pub restore_snapshots : Buffer → List MarketSnapshot → Buffer
  unfolding restore_from
  restore_snapshots b ss =
      restore_from
        (record b {
          entries = replicate b.capacity zero_snapshot;
          head = 0;
          size = 0;
          next_seq = 0;
          latest_by_symbol = [];
        })
        ss
