-- ===== src/Persistence/UsageLedger.antt =====
-- persistence/mem_usage_ledger.go and persistence/usage_ledger.go: the idempotent ledger of usage
-- rows. The mutex is left out: each method runs as a whole under it. The clock's reading, and
-- whether `ctx.Err()` is set, are arguments; a nil argument is `none`; the zero time is 0; the
-- float64 cost is an abstract number with the sum that the code uses.
pub mod Totals
mod Tests
use brain.Prelude.{
  ℕ, String, Bool, Option, none, some, List, [], ◌∷◌, ◌++◌, if◌then◌else◌, ◌==◌, nat_eq, string_eq,
  is_some, length,
}
use brain.Prelude.Int.{ℤ, pos, negsuc, ◌+ℤ◌, int_eq, wrap64}
use brain.Prelude.Result.{Result, ok, err}
use brain.Prelude.Assoc
use brain.Loop.Budget.{Floats}
use brain.Errors.Codes

module _ (f : Floats) where
  open f use {Float, zero_float, add_float}

  pub record UsageRecord : Type 0 where
    pub run_id : ℤ
    pub turn_index : ℤ
    pub provider : String
    pub model : String
    pub input_tokens : ℤ
    pub output_tokens : ℤ
    pub cache_read : ℤ
    pub cache_creation : ℤ
    pub cost_usd : Float
    pub idempotency_key : String
    pub created_at : ℕ

  -- `rows` has the oldest row first, and `by_key` the index of each key's row.
  pub record MemUsageLedger : Type 0 where
    pub rows : List UsageRecord
    pub by_key : List (String × ℕ)

  -- `NewMemUsageLedger`
  abbrev pub new_mem_usage_ledger : MemUsageLedger
  new_mem_usage_ledger = record { rows = []; by_key = [] }

  pub has_key : MemUsageLedger → String → Bool
  has_key l key = is_some (Assoc.lookup key l.by_key)

  -- `stored`
  abbrev pub stored : UsageRecord → ℕ → UsageRecord
  stored rec now = record rec { created_at = if rec.created_at == 0 then now else rec.created_at }

  pub add_row : MemUsageLedger → UsageRecord → MemUsageLedger
  add_row l rec = record {
    rows = l.rows ++ rec ∷ [];
    by_key = Assoc.insert rec.idempotency_key (length l.rows) l.by_key;
  }

  -- `Record`
  pub record_usage : MemUsageLedger → Bool → ℕ → Option UsageRecord → MemUsageLedger × Option String
  unfolding has_key add_row
  record_usage l ctx_err now none = (l, some Codes.invalid_params)
  record_usage l ctx_err now (some rec) =
      if rec.idempotency_key == ""
      then (l, some Codes.invalid_params)
      else if ctx_err
      then (l, some Codes.deadline_exceeded)
      else if has_key l rec.idempotency_key
      then (l, none)
      else (add_row l (stored rec now), none)

  -- `agg` before the loop of `Sum`
  abbrev pub zero_usage : ℤ → UsageRecord
  zero_usage run_id = record {
    run_id = run_id;
    turn_index = negsuc 0;
    provider = "";
    model = "";
    input_tokens = pos 0;
    output_tokens = pos 0;
    cache_read = pos 0;
    cache_creation = pos 0;
    cost_usd = zero_float;
    idempotency_key = "";
    created_at = 0;
  }

  -- One round of the loop.
  abbrev pub add_usage : UsageRecord → UsageRecord → UsageRecord
  add_usage agg row =
      if row.run_id == agg.run_id
      then record agg {
        input_tokens = wrap64 (agg.input_tokens +ℤ row.input_tokens);
        output_tokens = wrap64 (agg.output_tokens +ℤ row.output_tokens);
        cache_read = wrap64 (agg.cache_read +ℤ row.cache_read);
        cache_creation = wrap64 (agg.cache_creation +ℤ row.cache_creation);
        cost_usd = add_float agg.cost_usd row.cost_usd;
      }
      else agg

  pub sum_from : UsageRecord → List UsageRecord → UsageRecord
  sum_from agg [] = agg
  sum_from agg (row ∷ rows) = sum_from (add_usage agg row) rows

  -- `Sum`
  pub sum : MemUsageLedger → Bool → ℤ → Result UsageRecord
  unfolding sum_from
  sum l ctx_err run_id =
      if ctx_err then err Codes.deadline_exceeded else ok (sum_from (zero_usage run_id) l.rows)

  -- `Count`
  pub count : MemUsageLedger → ℕ
  count l = length l.rows
