-- ===== src/Protocol/Heartbeat/Hung.antt =====
-- When a peer counts as hung: once at most, and in time if it is silent.
use brain.Prelude.Int.{ℤ}
use mathlib.Core.Path.{subst}
use brain.Protocol.Heartbeat.{
  ℤ, PingScheduler, new_ping_scheduler, send_ping, sent_before, pruned, count_misses, after_count,
  tick, PingOp, tick_op, pong_op, stop_op, step, run,
}
use brain.Prelude.Assoc.{insert}
use brain.Prelude.{
  ℕ, ◌+◌, ◌*◌, ◌≤◌, ◌<◌, ◌≡◌, refl, sym, ap, ◌∙◌, inl, inr, Bool, true, false, ◌&&◌, not, List, [],
  ◌∷◌, ◌++◌, map, arith, ltb, leb, if◌then◌else◌, nat_eq, string_eq, ◌==◌, Bool-cases, length,
  length-append, All, All-append,
}

-- OnHung has been called once if the scheduler remembers it, and not at all otherwise.
abbrev FiredOnce : PingScheduler → Type 0
FiredOnce p = p.hung ≡ (if p.hung_fired then 1 else 0)

step-FiredOnce : (p : PingScheduler) (op : PingOp) → FiredOnce p → FiredOnce (step p op)
unfolding step
step-FiredOnce p (tick_op (a, b, c)) h = ground arith
step-FiredOnce p (pong_op seq now) h = h
step-FiredOnce p stop_op h = h

run-FiredOnce : (p : PingScheduler) (ops : List PingOp) → FiredOnce p → FiredOnce (run p ops)
unfolding run
run-FiredOnce p [] h = h
run-FiredOnce p (op ∷ ops) h = run-FiredOnce (step p op) ops (step-FiredOnce p op h)

ticks : PingScheduler → List (ℕ × ℕ × ℕ) → PingScheduler
ticks p [] = p
ticks p (t ∷ ts) = ticks (tick p t) ts

-- Ticks that follow one another by more than the interval, and by no more than twice of it.
abbrev pub IsPaced : ℕ → ℕ → List (ℕ × ℕ × ℕ) → Type 0
IsPaced interval before [] = Unit
IsPaced interval before ((sent, now, prune_now) ∷ ts) =
    (before ≤ sent)
    × (sent ≤ prune_now)
    × (before + interval < now)
    × (prune_now ≤ before + 2 * interval)
    × IsPaced interval sent ts

insert_fresh :
    (n v : ℕ) (m : List (ℕ × ℕ)) → All (λ e. e.0 ≤ n) m → insert (n + 1) v m ≡ m ++ (n + 1, v) ∷ []
unfolding insert
insert_fresh n v [] h = refl
insert_fresh n v ((k, w) ∷ m) h =
    let other : (k == n + 1) ≡ false = ground (arith, h.0) in
    rw other (ap (λ l. (k, w) ∷ l) (insert_fresh n v m h.1))

-- The pings that are pending: so many, none sent after a time, none too old for it.
record IsSilent (p : PingScheduler) (count last age : ℕ) : Type 0 where
  length_pending : length p.pending ≡ count
  numbered : All (λ e. e.0 ≤ p.seq) p.pending
  not_later : All (λ e. e.1 ≤ last) p.pending
  not_old : All (λ e. last ≤ e.1 + age) p.pending
  goes_on : p.stopped ≡ false

all_missed :
    (interval last now : ℕ) (m : List (ℕ × ℕ))
    → All (λ e. e.1 ≤ last) m
    → last + interval < now
    → length m ≤ sent_before interval now m
unfolding sent_before
all_missed interval last now [] h lt = omega arith
all_missed interval last now ((k, at) ∷ m) h lt =
    ground (arith, all_missed interval last now m h.1 lt)

none_pruned : (age now : ℕ) (m : List (ℕ × ℕ)) → All (λ e. now ≤ e.1 + age) m → pruned age now m ≡ m
unfolding pruned
none_pruned age now [] h = refl
none_pruned age now ((k, at) ∷ m) h =
    let young : ltb (at + age) now ≡ false = ground (arith, h.0) in
    rw young (ap (λ l. (k, at) ∷ l) (none_pruned age now m h.1))

All-weaken {ℓ} :
    {A : Type ℓ} (P Q : A → Type 0) (xs : List A) → ((x : A) → P x → Q x) → All P xs → All Q xs
All-weaken P Q [] f h = tt
All-weaken P Q (x ∷ xs) f h = (f x h.0, All-weaken P Q xs f h.1)

-- A tick of a scheduler that goes on, in its parts.
record Ticked (p p' : PingScheduler) (sent now prune_now : ℕ) : Type 0 where
  pending_now :
      p'.pending
      ≡ pruned (p.miss_threshold * 2 * p.interval) prune_now (insert (p.seq + 1) sent p.pending)
  seq_now : p'.seq ≡ p.seq + 1
  interval_now : p'.interval ≡ p.interval
  threshold_now : p'.miss_threshold ≡ p.miss_threshold
  stopped_now : p'.stopped ≡ false
  fired_now :
      p.miss_threshold ≤ sent_before p.interval now (insert (p.seq + 1) sent p.pending)
      → p'.hung_fired ≡ true
  fired_kept : p.hung_fired ≡ true → p'.hung_fired ≡ true

record Counted (q q' : PingScheduler) (misses : ℕ) : Type 0 where
  pending_same : q'.pending ≡ q.pending
  seq_same : q'.seq ≡ q.seq
  interval_same : q'.interval ≡ q.interval
  threshold_same : q'.miss_threshold ≡ q.miss_threshold
  stopped_same : q'.stopped ≡ q.stopped
  fires_at : q.miss_threshold ≤ misses → q'.hung_fired ≡ true
  fires_still : q.hung_fired ≡ true → q'.hung_fired ≡ true

fires_or_fired :
    (q : PingScheduler) (misses : ℕ)
    → leb q.miss_threshold misses && not q.hung_fired ≡ false
    → q.miss_threshold ≤ misses
    → q.hung_fired ≡ true
fires_or_fired q misses e h = ground arith

after_count-Counted : (q : PingScheduler) (misses : ℕ) → Counted q (after_count (q, misses)) misses
unfolding after_count
after_count-Counted q misses = elim (Bool-cases (leb q.miss_threshold misses && not q.hung_fired)) [
  | inl e ↦
      subst
        (λ b. Counted q (if b then record q { hung_fired = true; hung = q.hung + 1 } else q) misses)
        (sym e)
        (record {
          pending_same = refl;
          seq_same = refl;
          interval_same = refl;
          threshold_same = refl;
          stopped_same = refl;
          fires_at = λ h. refl;
          fires_still = λ h. refl;
        })
  | inr e ↦
      subst
        (λ b. Counted q (if b then record q { hung_fired = true; hung = q.hung + 1 } else q) misses)
        (sym e)
        (record {
          pending_same = refl;
          seq_same = refl;
          interval_same = refl;
          threshold_same = refl;
          stopped_same = refl;
          fires_at = λ h. fires_or_fired q misses e h;
          fires_still = λ h. h;
        })
]

tick_goes_on :
    (p : PingScheduler) (sent now prune_now : ℕ)
    → p.stopped ≡ false
    → tick p (sent, now, prune_now) ≡ after_count (count_misses (send_ping p sent) now prune_now)
unfolding tick
tick_goes_on p sent now prune_now h =
    ap (λ b. if b then p else after_count (count_misses (send_ping p sent) now prune_now)) h

tick-Ticked :
    (p : PingScheduler) (sent now prune_now : ℕ)
    → p.stopped ≡ false
    → Ticked p (tick p (sent, now, prune_now)) sent now prune_now
unfolding count_misses send_ping
tick-Ticked p sent now prune_now h =
    let (q, misses) = count_misses (send_ping p sent) now prune_now in
    let c = after_count-Counted q misses in
    subst (λ p'. Ticked p p' sent now prune_now) (sym (tick_goes_on p sent now prune_now h))
      (record {
        pending_now = c.pending_same;
        seq_now = c.seq_same;
        interval_now = c.interval_same;
        threshold_now = c.threshold_same;
        stopped_now = c.stopped_same ∙ h;
        fired_now = c.fires_at;
        fired_kept = c.fires_still;
      })

allowance : ℕ → List (ℕ × ℕ × ℕ) → ℕ
allowance interval [] = 0
allowance interval (t ∷ ts) = 2 * interval + allowance interval ts

ticks-fired :
    (p : PingScheduler) (ts : List (ℕ × ℕ × ℕ))
    → p.stopped ≡ false
    → p.hung_fired ≡ true
    → (ticks p ts).hung_fired ≡ true
unfolding ticks
ticks-fired p [] g h = h
ticks-fired p ((a, b, c) ∷ ts) g h =
    let t = tick-Ticked p a b c g in
    ticks-fired (tick p (a, b, c)) ts t.stopped_now (t.fired_kept h)

sent_before-append :
    (age now : ℕ) (xs ys : List (ℕ × ℕ))
    → sent_before age now (xs ++ ys) ≡ sent_before age now xs + sent_before age now ys
unfolding sent_before
sent_before-append age now [] ys = omega arith
sent_before-append age now ((k, at) ∷ xs) ys = omega (arith, sent_before-append age now xs ys)

module _ (p : PingScheduler) {count last age : ℕ} (sent now prune_now : ℕ)
    (s : IsSilent p count last age) (not_before : last ≤ sent) (in_order : sent ≤ prune_now)
    (slow : last + p.interval < now) (fast : prune_now ≤ last + 2 * p.interval)
    (room : age + 2 * p.interval ≤ p.miss_threshold * 2 * p.interval) where
  abbrev added : List (ℕ × ℕ)
  added = p.pending ++ (p.seq + 1, sent) ∷ []

  pending-tick : (tick p (sent, now, prune_now)).pending ≡ added
  pending-tick =
      let t = tick-Ticked p sent now prune_now s.goes_on in
      let old = p.miss_threshold * 2 * p.interval in
      let within : All (λ e. prune_now ≤ e.1 + old) added =
        All-append (λ e. prune_now ≤ e.1 + old) p.pending ((p.seq + 1, sent) ∷ [])
          (All-weaken (λ e. last ≤ e.1 + age) (λ e. prune_now ≤ e.1 + old) p.pending
            (λ e h. omega arith) s.not_old)
          (omega arith, tt) in
      t.pending_now
      ∙ ap (pruned old prune_now) (insert_fresh p.seq sent p.pending s.numbered)
      ∙ none_pruned old prune_now added within

  tick-IsSilent : IsSilent (tick p (sent, now, prune_now)) (count + 1) sent (age + 2 * p.interval)
  tick-IsSilent =
      let t = tick-Ticked p sent now prune_now s.goes_on in
      let p' = tick p (sent, now, prune_now) in
      let new : ℕ × ℕ = (p.seq + 1, sent) in
      record {
        length_pending =
            ap length pending-tick
            ∙ length-append p.pending (new ∷ [])
            ∙ omega (arith, s.length_pending);
        numbered = subst (All (λ e. e.0 ≤ p'.seq)) (sym pending-tick) (
            All-append (λ e. e.0 ≤ p'.seq) p.pending (new ∷ [])
              (All-weaken (λ e. e.0 ≤ p.seq) (λ e. e.0 ≤ p'.seq) p.pending
                (λ e h. omega (arith, t.seq_now)) s.numbered)
              (omega (arith, t.seq_now), tt));
        not_later = subst (All (λ e. e.1 ≤ sent)) (sym pending-tick) (
            All-append (λ e. e.1 ≤ sent) p.pending (new ∷ [])
              (All-weaken (λ e. e.1 ≤ last) (λ e. e.1 ≤ sent) p.pending (λ e h. omega arith)
                s.not_later)
              (omega arith, tt));
        not_old = subst (All (λ e. sent ≤ e.1 + (age + 2 * p.interval))) (sym pending-tick) (
            All-append (λ e. sent ≤ e.1 + (age + 2 * p.interval)) p.pending (new ∷ [])
              (All-weaken (λ e. last ≤ e.1 + age) (λ e. sent ≤ e.1 + (age + 2 * p.interval))
                p.pending (λ e h. omega arith) s.not_old)
              (omega arith, tt));
        goes_on = t.stopped_now;
      }

  tick_fires : p.miss_threshold ≤ count → (tick p (sent, now, prune_now)).hung_fired ≡ true
  tick_fires enough =
      let t = tick-Ticked p sent now prune_now s.goes_on in
      let new : ℕ × ℕ = (p.seq + 1, sent) in
      let missed = all_missed p.interval last now p.pending s.not_later slow in
      let all = sent_before-append p.interval now p.pending (new ∷ []) in
      t.fired_now (
        subst (λ m. p.miss_threshold ≤ sent_before p.interval now m)
          (sym (insert_fresh p.seq sent p.pending s.numbered))
          (omega (arith, missed, all, s.length_pending)))

-- With as many ticks left as it takes to have `miss_threshold` pings behind the last one.
silence_noticed :
    (p : PingScheduler) (count last age : ℕ) (t : ℕ × ℕ × ℕ) (ts : List (ℕ × ℕ × ℕ))
    → IsSilent p count last age
    → count + length ts ≡ p.miss_threshold
    → age + allowance p.interval (t ∷ ts) ≤ p.miss_threshold * 2 * p.interval
    → IsPaced p.interval last (t ∷ ts)
    → (ticks p (t ∷ ts)).hung_fired ≡ true
unfolding ticks allowance
silence_noticed p count last age (a, b, c) [] s n room paced =
    tick_fires p a b c s paced.0 paced.1 paced.2 paced.3 (omega arith) (omega arith)
silence_noticed p count last age (a, b, c) (t ∷ ts) s n room paced =
    let first = tick-Ticked p a b c s.goes_on in
    let p' = tick p (a, b, c) in
    let enough : age + 2 * p.interval ≤ p.miss_threshold * 2 * p.interval = omega arith in
    silence_noticed p' (count + 1) a (age + 2 * p.interval) t ts
      (tick-IsSilent p a b c s paced.0 paced.1 paced.2 paced.3 enough)
      (omega (arith, first.threshold_now))
      (subst (λ i. age + 2 * p.interval + allowance i (t ∷ ts) ≤ p'.miss_threshold * 2 * i)
        (sym first.interval_now)
        (subst (λ m. age + 2 * p.interval + allowance p.interval (t ∷ ts) ≤ m * 2 * p.interval)
          (sym first.threshold_now) (omega arith)))
      (subst (λ i. IsPaced i a (t ∷ ts)) (sym first.interval_now) paced.4)

allowance_lem :
    (interval : ℕ) (ts : List (ℕ × ℕ × ℕ)) → allowance interval ts ≡ length ts * 2 * interval
unfolding allowance
allowance_lem interval [] = omega arith
allowance_lem interval (t ∷ ts) = grind (arith, allowance_lem interval ts)

module _ (p : PingScheduler) (empty : p.pending ≡ []) (goes_on : p.stopped ≡ false)
    (positive : 1 ≤ p.miss_threshold) where
  nothing_sent : (last : ℕ) → IsSilent p 0 last 0
  nothing_sent last = record {
    length_pending = ap length empty;
    numbered = subst (All (λ e. e.0 ≤ p.seq)) (sym empty) tt;
    not_later = subst (All (λ e. e.1 ≤ last)) (sym empty) tt;
    not_old = subst (All (λ e. last ≤ e.1 + 0)) (sym empty) tt;
    goes_on = goes_on;
  }

  -- The first ping is as young as the time itself.
  first-IsSilent :
      (start a b c : ℕ)
      → start ≤ a
      → a ≤ c
      → start + p.interval < b
      → c ≤ start + 2 * p.interval
      → IsSilent (tick p (a, b, c)) 1 a 0
  first-IsSilent start a b c h1 h2 h3 h4 =
      let s = nothing_sent start in
      let room : 0 + 2 * p.interval ≤ p.miss_threshold * 2 * p.interval = grind arith in
      let next = tick-IsSilent p a b c s h1 h2 h3 h4 room in
      let new : ℕ × ℕ = (p.seq + 1, a) in
      let shown = pending-tick p a b c s h1 h2 h3 h4 room ∙ ap (λ m. m ++ new ∷ []) empty in
      record {
        length_pending = next.length_pending;
        numbered = next.numbered;
        not_later = next.not_later;
        not_old = subst (All (λ e. a ≤ e.1 + 0)) (sym shown) (omega arith, tt);
        goes_on = next.goes_on;
      }

  silence_from_start :
      (start : ℕ) (ts : List (ℕ × ℕ × ℕ))
      → length ts ≡ p.miss_threshold + 1
      → IsPaced p.interval start ts
      → (ticks p ts).hung_fired ≡ true
  unfolding ticks
  silence_from_start start [] n paced = absurd (omega arith)
  silence_from_start start (t ∷ []) n paced = absurd (omega arith)
  silence_from_start start ((a, b, c) ∷ t ∷ ts) n paced =
      let first = tick-Ticked p a b c goes_on in
      let p' = tick p (a, b, c) in
      let all = allowance_lem p'.interval (t ∷ ts) in
      let count : length (t ∷ ts) ≡ p'.miss_threshold = omega (arith, first.threshold_now) in
      silence_noticed p' 1 a 0 t ts (first-IsSilent start a b c paced.0 paced.1 paced.2 paced.3)
        (omega (arith, first.threshold_now))
        (subst (λ n. 0 + allowance p'.interval (t ∷ ts) ≤ n * 2 * p'.interval) count
          (omega (arith, all)))
        (subst (λ i. IsPaced i a (t ∷ ts)) (sym first.interval_now) paced.4)

run-ticks : (p : PingScheduler) (ts : List (ℕ × ℕ × ℕ)) → run p (map tick_op ts) ≡ ticks p ts
unfolding run ticks step
run-ticks p [] = refl
run-ticks p (t ∷ ts) = run-ticks (tick p t) ts

threshold_positive :
    (interval threshold : ℤ) → 1 ≤ (new_ping_scheduler interval threshold).miss_threshold
unfolding new_ping_scheduler
threshold_positive interval threshold = ground arith

-- A peer that never answers is reported in time, and once: after one tick more than the miss
-- threshold, where the ticks follow the start and one another by more than the interval and no more
-- than twice of it, OnHung has been called exactly once.
pub silence_reported :
    (interval threshold : ℤ) (start : ℕ) (ts : List (ℕ × ℕ × ℕ))
    → length ts ≡ (new_ping_scheduler interval threshold).miss_threshold + 1
    → IsPaced (new_ping_scheduler interval threshold).interval start ts
    → (run (new_ping_scheduler interval threshold) (map tick_op ts)).hung ≡ 1
silence_reported interval threshold start ts n paced =
    let p = new_ping_scheduler interval threshold in
    let fired =
      ap (λ (q : PingScheduler). q.hung_fired) (run-ticks p ts)
      ∙ silence_from_start p (unfold new_ping_scheduler in refl) (unfold new_ping_scheduler in refl)
          (threshold_positive interval threshold) start ts n paced in
    run-FiredOnce p (map tick_op ts) (unfold new_ping_scheduler in refl)
    ∙ ap (λ b. if b then 1 else 0) fired

-- Whatever happens, OnHung is called no more than once.
pub hung_once :
    (interval threshold : ℤ) (ops : List PingOp)
    → (run (new_ping_scheduler interval threshold) ops).hung ≤ 1
hung_once interval threshold ops =
    let p = new_ping_scheduler interval threshold in
    let q = run p ops in
    bounded q.hung_fired (run-FiredOnce p ops (unfold new_ping_scheduler in refl))
  where
    bounded : {n : ℕ} (b : Bool) → n ≡ (if b then 1 else 0) → n ≤ 1
    bounded true e = omega arith
    bounded false e = omega arith
