-- ===== src/Persistence/UsageLedger/Tests.antt =====
-- A ledger with no row.
use brain.Prelude.{
  true, false, ◌⊎◌, ◌+◌, texts_differ, ◌≡◌, refl, false, some, [], nat_eq, string_eq,
}
use brain.Prelude.Int.{pos, int_eq}
use brain.Prelude.Result.{ok}
use brain.Loop.Tests.{cents}
use brain.Persistence.UsageLedger.{
  count, has_key, UsageRecord, MemUsageLedger, has_key, record_usage, zero_usage, sum_from, sum,
}
use brain.Persistence.UsageLedger.Totals.{Grows, record_once}

abbrev one_call : UsageRecord cents
one_call = record {
  run_id = pos 4;
  turn_index = pos 1;
  provider = "p";
  model = "m";
  input_tokens = pos 100;
  output_tokens = pos 20;
  cache_read = pos 0;
  cache_creation = pos 0;
  cost_usd = pos 3;
  idempotency_key = "k";
  created_at = 0;
}

abbrev empty : MemUsageLedger cents
empty = record { rows = []; by_key = [] }

record_once_example :
    let l' = (record_usage cents empty false 8 (some one_call)).0 in
    ((has_key cents empty "k" ≡ true) × (l' ≡ empty))
    ⊎ ((has_key cents empty "k" ≡ false)
        × ((agg' : UsageRecord cents) × (sum cents l' false (pos 4) ≡ ok agg')
            × Grows cents (pos 4) one_call (zero_usage cents (pos 4)) agg')
        × (count cents l' ≡ count cents empty + 1))
unfolding sum sum_from
record_once_example =
    (record_once cents empty 8 one_call (pos 4) (zero_usage cents (pos 4))
      (texts_differ "k" "" refl) refl).2
