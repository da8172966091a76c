-- ===== src/Persistence/UsageLedger/Totals.antt =====
-- A row is counted once, and the totals grow by exactly the rows that were recorded.
use brain.Prelude.Assoc.{lookup-insert, beq_refl}
use brain.Prelude.{
  ℕ, ◌+◌, ◌≡◌, refl, sym, ap, ◌∙◌, ◌≢◌, ◌⊎◌, inl, inr, Bool, true, false, none, some, List, [], ◌∷◌,
  ◌++◌, nat_eq, string_eq, ◌==◌, Bool-cases, named_test, length-append,
}
use mathlib.Core.Bool.{false≢true}
use brain.Prelude.Int.{ℤ, ◌+ℤ◌, int_eq, wrap64}
use brain.Prelude.Result.{ok, err}
use brain.Loop.Budget.{Floats}
use brain.Persistence.UsageLedger.{
  UsageRecord, MemUsageLedger, has_key, stored, add_row, record_usage, zero_usage, add_usage,
  sum_from, sum, count,
}

module _ (f : Floats) where
  sum_from-append :
      (agg : UsageRecord f) (rows : List (UsageRecord f)) (row : UsageRecord f)
      → sum_from f agg (rows ++ row ∷ []) ≡ add_usage f (sum_from f agg rows) row
  unfolding sum_from
  sum_from-append agg [] row = refl
  sum_from-append agg (r ∷ rows) row = sum_from-append (add_usage f agg r) rows row

  has_key-add_row :
      (l : MemUsageLedger f) (rec : UsageRecord f)
      → has_key f (add_row f l rec) rec.idempotency_key ≡ true
  unfolding has_key add_row
  has_key-add_row l rec = simp (lookup-insert, beq_refl)

  sum_from-run_id :
      (agg : UsageRecord f) (rows : List (UsageRecord f))
      → (sum_from f agg rows).run_id ≡ agg.run_id
  unfolding sum_from
  sum_from-run_id agg [] = refl
  sum_from-run_id agg (row ∷ rows) =
      sum_from-run_id (add_usage f agg row) rows ∙ same (row.run_id == agg.run_id) refl
    where
      same : (b : Bool) → (row.run_id == agg.run_id) ≡ b → (add_usage f agg row).run_id ≡ agg.run_id
      same true e = rw e refl
      same false e = rw e refl

  -- The total of a run with another row of this run, each count wrapped to 64 bits.
  abbrev pub with_usage : UsageRecord f → UsageRecord f → UsageRecord f
  with_usage agg rec = record agg {
    input_tokens = wrap64 (agg.input_tokens +ℤ rec.input_tokens);
    output_tokens = wrap64 (agg.output_tokens +ℤ rec.output_tokens);
    cache_read = wrap64 (agg.cache_read +ℤ rec.cache_read);
    cache_creation = wrap64 (agg.cache_creation +ℤ rec.cache_creation);
    cost_usd = f.add_float agg.cost_usd rec.cost_usd;
  }

  -- What a new row makes of the total of a run: its own run's grows, and any other stays.
  pub Grows : ℤ → UsageRecord f → UsageRecord f → UsageRecord f → Type 0
  Grows run_id rec agg agg' =
      ((run_id ≡ rec.run_id) × (agg' ≡ with_usage agg rec)) ⊎ ((run_id ≢ rec.run_id) × (agg' ≡ agg))

  add_usage-Grows :
      (agg rec : UsageRecord f) (run_id : ℤ) (t : ℕ)
      → agg.run_id ≡ run_id
      → Grows run_id rec agg (add_usage f agg (stored f rec t))
  unfolding Grows
  add_usage-Grows agg rec run_id t e = elim (Bool-cases (rec.run_id == agg.run_id)) [
    | inl q ↦ rw q (inl (sym e ∙ sym ((int_eq.beq_iff _ _).0 q), refl))
    | inr q ↦
        rw q (inr (λ h. absurd (false≢true (sym q ∙ (int_eq.beq_iff _ _).1 (sym h ∙ sym e))), refl))
  ]

  ok-injective : {a b : UsageRecord f} → ok a ≡ ok b → a ≡ b
  ok-injective {a} e = ap (λ r. elim r as (λ _. UsageRecord f) [ ok x ↦ x | err c ↦ a ]) e

  -- Under a key that the ledger does not have, a record adds one row, and the key is taken from then
  -- on: in the total of the row's own run each count of tokens grows by the row's, wrapped to 64
  -- bits, and the cost by the row's cost, and the total of any other run stays what it was. Under a
  -- key that the ledger has, a record changes nothing. No error is returned either way.
  pub record_once :
      (l : MemUsageLedger f) (t : ℕ) (rec : UsageRecord f) (run_id : ℤ) (agg : UsageRecord f)
      → rec.idempotency_key ≢ ""
      → sum f l false run_id ≡ ok agg
      → let (l', error) = record_usage f l false t (some rec) in
        (error ≡ none)
        × (has_key f l' rec.idempotency_key ≡ true)
        × (((has_key f l rec.idempotency_key ≡ true) × (l' ≡ l))
            ⊎ ((has_key f l rec.idempotency_key ≡ false)
                × ((agg' : UsageRecord f) × (sum f l' false run_id ≡ ok agg')
                    × Grows run_id rec agg agg')
                × (count f l' ≡ count f l + 1)))
  unfolding record_usage sum count
  record_once l t rec run_id agg named total = elim (Bool-cases (has_key f l rec.idempotency_key)) [
    | inl old ↦ rw (named_test rec.idempotency_key named, old) (refl, old, inl (refl, refl))
    | inr new ↦
        let own : sum_from f (zero_usage f run_id) l.rows ≡ agg = ok-injective total in
        let same_run : agg.run_id ≡ run_id =
          sym (ap (λ (u : UsageRecord f). u.run_id) own)
          ∙ sum_from-run_id (zero_usage f run_id) l.rows in
        rw (named_test rec.idempotency_key named, new)
          (
            refl,
            has_key-add_row l (stored f rec t),
            inr (
              refl,
              (
                add_usage f agg (stored f rec t),
                ap ok (
                    sum_from-append (zero_usage f run_id) l.rows (stored f rec t)
                    ∙ ap (λ u. add_usage f u (stored f rec t)) own),
                add_usage-Grows agg rec run_id t same_run,
              ),
              length-append l.rows (stored f rec t ∷ []),
            ),
          )
  ]

  -- The same record once more at each of the times.
  pub retry_all : MemUsageLedger f → List ℕ → UsageRecord f → MemUsageLedger f
  retry_all l [] rec = l
  retry_all l (t ∷ ts) rec = retry_all (record_usage f l false t (some rec)).0 ts rec

  retry_kept :
      (l : MemUsageLedger f) (times : List ℕ) (rec : UsageRecord f)
      → rec.idempotency_key ≢ ""
      → has_key f l rec.idempotency_key ≡ true
      → retry_all l times rec ≡ l
  unfolding retry_all record_usage
  retry_kept l [] rec named old = refl
  retry_kept l (t ∷ ts) rec named old =
      rw (named_test rec.idempotency_key named, old) (retry_kept l ts rec named old)

  -- Recording the same usage again, at any time and however often the caller retries, leaves the
  -- ledger as the first call left it.
  record_retried :
      (l : MemUsageLedger f) (times : List ℕ) (t : ℕ) (rec : UsageRecord f)
      → rec.idempotency_key ≢ ""
      → let l' = (record_usage f l false t (some rec)).0 in retry_all l' times rec ≡ l'
  unfolding sum
  record_retried l times t rec named =
      retry_kept (record_usage f l false t (some rec)).0 times rec named
        (record_once l t rec rec.run_id _ named refl).1
