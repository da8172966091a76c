-- ===== src/Protocol/Rpc/Calls/Bounds.antt =====
-- The calls that wait for a response stay within the in-flight window.
use brain.Protocol.Rpc.Calls.{
  Stage, entered, holding, numbered, registered, cancellable, sent, leaving, unregistering,
  releasing, returned, CallStep, acquires, times_out, finds_closed, takes_number, registers,
  makes_cancellable, sends, sends_nothing, takes, cancels, sees_closed, leaves, unregisters,
  releases, System, receive, Step, begins, advances, reads, delivers, notifies, answers, fires,
  closes, Reach, begin, next, gather, count_of, count_of-gather, length-gather,
  dispatch_request_writes, cancel_request_fires,
}
use brain.Protocol.Rpc.{
  RpcError, RpcMessage, Role, RpcResponse, BidirRpc, window, new_bidir_rpc, make_id, next_id,
  register_waiter, clear_waiter, acquire_slot, release_slot, register_inflight_cancel,
  clear_inflight_cancel, handle_cancel_request, send_request, notify, all_failed, close, Route,
  dropped, to_handler, to_waiter, stale, dispatch, deliver, dispatch_request,
}
use brain.Prelude.Text.{Bytes, bytes_eq}
use brain.Prelude.Assoc.{lookup, insert, delete}
use brain.Prelude.{
  ℕ, suc, ◌+◌, ◌≤◌, ◌≡◌, refl, sym, ap, ◌∙◌, inl, inr, Bool, Option, List, [], ◌∷◌, ◌++◌, arith,
  if◌then◌else◌, nat_eq, string_eq, ◌==◌, Bool-cases, is_some, length, length-append, All,
}
use mathlib.Core.Path.{subst}
use mathlib.Core.Bool.{false≢true}

abbrev pub numbers : List (Bytes × ℕ) → List ℕ
numbers [] = []
numbers ((id, n) ∷ waiters) = n ∷ numbers waiters

-- The number of a call that may stand in the table of waiters.
abbrev pub waiting : Stage → List ℕ
waiting entered = []
waiting holding = []
waiting (numbered n) = []
waiting (registered n) = n ∷ []
waiting (cancellable n) = n ∷ []
waiting (sent n) = n ∷ []
waiting (leaving n o) = n ∷ []
waiting (unregistering n o) = n ∷ []
waiting (releasing o) = []
waiting (returned o) = []

-- One entry for a call that holds a slot.
abbrev pub slot : Stage → List ℕ
slot entered = []
slot holding = 0 ∷ []
slot (numbered n) = 0 ∷ []
slot (registered n) = 0 ∷ []
slot (cancellable n) = 0 ∷ []
slot (sent n) = 0 ∷ []
slot (leaving n o) = 0 ∷ []
slot (unregistering n o) = 0 ∷ []
slot (releasing o) = 0 ∷ []
slot (returned o) = []

slot_bound : (c : Stage) → length (waiting c) ≤ length (slot c)
slot_bound entered = omega arith
slot_bound holding = omega arith
slot_bound (numbered n) = omega arith
slot_bound (registered n) = omega arith
slot_bound (cancellable n) = omega arith
slot_bound (sent n) = omega arith
slot_bound (leaving n o) = omega arith
slot_bound (unregistering n o) = omega arith
slot_bound (releasing o) = omega arith
slot_bound (returned o) = omega arith

gather_bound : (calls : List Stage) → length (gather waiting calls) ≤ length (gather slot calls)
unfolding gather
gather_bound [] = omega arith
gather_bound (c ∷ calls) = omega (
  arith,
  slot_bound c,
  gather_bound calls,
  length-append (waiting c) (gather waiting calls),
  length-append (slot c) (gather slot calls),
)

abbrev remove_one : ℕ → List ℕ → List ℕ
remove_one k [] = []
remove_one k (x ∷ xs) = if x == k then xs else x ∷ remove_one k xs

count_of-remove_one :
    (k j : ℕ) (xs : List ℕ)
    → count_of j xs ≤ count_of j (remove_one k xs) + (if k == j then 1 else 0)
count_of-remove_one k j [] = omega arith
count_of-remove_one k j (x ∷ xs) = ground (arith, count_of-remove_one k j xs)

length-remove_one :
    (k : ℕ) (xs : List ℕ) → 1 ≤ count_of k xs → length (remove_one k xs) + 1 ≡ length xs
length-remove_one k [] h = absurd (omega arith)
length-remove_one k (x ∷ xs) h = ground (arith, length-remove_one k xs)

-- A list in which nothing stands more often than in another is not longer.
length-le_of_counts :
    (xs ys : List ℕ) → ((k : ℕ) → count_of k xs ≤ count_of k ys) → length xs ≤ length ys
length-le_of_counts [] ys h = omega arith
length-le_of_counts (x ∷ xs) ys h =
    let there : 1 + count_of x xs ≤ count_of x ys = ground (arith, h x) in
    let shorter =
      length-le_of_counts xs (remove_one x ys)
        (λ k. ground (arith, h k, count_of-remove_one x k ys)) in
    omega (arith, length-remove_one x ys)

numbers-insert :
    (k : ℕ) (id : Bytes) (n : ℕ) (ws : List (Bytes × ℕ))
    → count_of k (numbers (insert id n ws)) ≤ count_of k (numbers ws) + (if n == k then 1 else 0)
unfolding insert
numbers-insert k id n [] = omega arith
numbers-insert k id n ((i, m) ∷ ws) = ground (arith, numbers-insert k id n ws)

numbers-delete :
    (k : ℕ) (id : Bytes) (ws : List (Bytes × ℕ))
    → count_of k (numbers (delete id ws)) ≤ count_of k (numbers ws)
unfolding delete
numbers-delete k id [] = omega arith
numbers-delete k id ((i, m) ∷ ws) = ground (arith, numbers-delete k id ws)

module _ (role : Role) where
  -- Every waiter stands under its own id.
  abbrev pub AreNamed : List (Bytes × ℕ) → Type 0
  AreNamed = All (λ w. w.0 ≡ make_id role w.1)

  pub insert-AreNamed :
      (n : ℕ) (ws : List (Bytes × ℕ)) → AreNamed ws → AreNamed (insert (make_id role n) n ws)
  unfolding insert
  insert-AreNamed n [] h = (refl, tt)
  insert-AreNamed n ((i, m) ∷ ws) h = elim (Bool-cases (i == make_id role n)) [
    | inl e ↦ rw e (refl, h.1)
    | inr e ↦ rw e (h.0, insert-AreNamed n ws h.1)
  ]

  pub delete-AreNamed : (id : Bytes) (ws : List (Bytes × ℕ)) → AreNamed ws → AreNamed (delete id ws)
  unfolding delete
  delete-AreNamed id [] h = tt
  delete-AreNamed id ((i, m) ∷ ws) h = elim (Bool-cases (i == id)) [
    | inl e ↦ rw e (delete-AreNamed id ws h.1)
    | inr e ↦ rw e (h.0, delete-AreNamed id ws h.1)
  ]

  delete_own :
      (n : ℕ) (ws : List (Bytes × ℕ))
      → AreNamed ws
      → count_of n (numbers (delete (make_id role n) ws)) ≡ 0
  unfolding delete
  delete_own n [] h = refl
  delete_own n ((i, m) ∷ ws) h = elim (Bool-cases (i == make_id role n)) [
    | inl e ↦ rw e (delete_own n ws h.1)
    | inr e ↦ elim (Bool-cases (m == n)) [
      | inr q ↦ let rest = delete_own n ws h.1 in rw (e, q) (omega (arith, rest))
      | inl q ↦
          let same = h.0 ∙ ap (make_id role) ((nat_eq.beq_iff m n).0 q) in
          absurd (false≢true (sym e ∙ (bytes_eq.beq_iff i (make_id role n)).1 same))
    ]
  ]

-- A session, and what is left to its other calls.
pub record IsBounded (role : Role) (r : BidirRpc) (calls : List Stage) : Type 0 where
  pub has_role : r.role ≡ role
  pub slots : length (gather slot calls) ≡ r.in_flight
  pub within : r.in_flight ≤ window role
  pub are_named : AreNamed role r.waiters
  pub waits : (k : ℕ) → count_of k (numbers r.waiters) ≤ count_of k (gather waiting calls)

-- What a step of a call from `c` to `c'` does to the session's numbers.
record Keeps (role : Role) (r r' : BidirRpc) (c c' : Stage) : Type 0 where
  role_kept : r'.role ≡ role
  slots_kept :
      (others : ℕ)
      → others + length (slot c) ≡ r.in_flight
      → others + length (slot c') ≡ r'.in_flight
  within_kept : r'.in_flight ≤ window role
  named_kept : AreNamed role r'.waiters
  waits_kept :
      (k others : ℕ)
      → count_of k (numbers r.waiters) ≤ others + count_of k (waiting c)
      → count_of k (numbers r'.waiters) ≤ others + count_of k (waiting c')

module _ {role : Role} {r : BidirRpc} (has_role : r.role ≡ role)
    (within : r.in_flight ≤ window role) (are_named : AreNamed role r.waiters) where
  -- A step that changes neither the table of waiters nor the slots.
  still :
      {r' : BidirRpc} {c c' : Stage}
      → r'.role ≡ r.role
      → r'.waiters ≡ r.waiters
      → r'.in_flight ≡ r.in_flight
      → length (slot c) ≡ length (slot c')
      → ((k : ℕ) → count_of k (waiting c) ≡ count_of k (waiting c'))
      → Keeps role r r' c c'
  still {r'} {c} {c'} er ew ei es ec = record {
    role_kept = er ∙ has_role;
    slots_kept = λ others h. omega (arith, h);
    within_kept = omega arith;
    named_kept = subst (AreNamed role) (sym ew) are_named;
    waits_kept = λ k others h.
        let same : count_of k (numbers r'.waiters) ≡ count_of k (numbers r.waiters) =
          ap (λ w. count_of k (numbers w)) ew in
        omega (arith, h, ec k);
  }

  CallStep-Keeps : {c c' : Stage} {r' : BidirRpc} → CallStep r c r' c' → Keeps role r r' c c'
  unfolding acquire_slot release_slot next_id register_waiter clear_waiter register_inflight_cancel
      clear_inflight_cancel send_request
  CallStep-Keeps (acquires h) = record {
    role_kept = has_role;
    slots_kept = λ others e. omega (arith, e);
    within_kept = subst (λ w. r.in_flight + 1 ≤ w) (ap window has_role) (omega arith);
    named_kept = are_named;
    waits_kept = λ k others e. e;
  }
  CallStep-Keeps times_out = still refl refl refl refl (λ k. refl)
  CallStep-Keeps (finds_closed h) = still refl refl refl refl (λ k. refl)
  CallStep-Keeps takes_number = still refl refl refl refl (λ k. refl)
  CallStep-Keeps (registers n) = record {
    role_kept = has_role;
    slots_kept = λ others e. e;
    within_kept = within;
    named_kept =
        subst (λ w. AreNamed role (insert (make_id w n) n r.waiters)) (sym has_role)
          (insert-AreNamed role n r.waiters are_named);
    waits_kept = λ k others e.
        let one = numbers-insert k (make_id r.role n) n r.waiters in omega (arith, e, one);
  }
  CallStep-Keeps (makes_cancellable n) = still refl refl refl refl (λ k. refl)
  CallStep-Keeps (sends n method params) = still refl refl refl refl (λ k. refl)
  CallStep-Keeps (sends_nothing n code) = still refl refl refl refl (λ k. refl)
  CallStep-Keeps (takes n resp h) = still refl refl refl refl (λ k. refl)
  CallStep-Keeps (cancels n) = still refl refl refl refl (λ k. refl)
  CallStep-Keeps (sees_closed n h) = still refl refl refl refl (λ k. refl)
  CallStep-Keeps (leaves n o) = still refl refl refl refl (λ k. refl)
  CallStep-Keeps (unregisters n o) = record {
    role_kept = has_role;
    slots_kept = λ others e. e;
    within_kept = within;
    named_kept = delete-AreNamed role (make_id r.role n) r.waiters are_named;
    waits_kept = λ k others e. elim (Bool-cases (n == k)) [
      | inr q ↦
          let fewer = numbers-delete k (make_id r.role n) r.waiters in
          let e' : count_of k (numbers r.waiters) ≤ others + (0 + 0) = rw q at e in
          omega (arith, e', fewer)
      | inl q ↦
          let gone : count_of k (numbers (delete (make_id r.role n) r.waiters)) ≡ 0 =
            subst (λ j. count_of j (numbers (delete (make_id r.role n) r.waiters)) ≡ 0)
              ((nat_eq.beq_iff n k).0 q)
              (subst (λ w. count_of n (numbers (delete (make_id w n) r.waiters)) ≡ 0) (sym has_role)
                (delete_own role n r.waiters are_named)) in
          omega (arith, gone)
    ];
  }
  CallStep-Keeps (releases o) = record {
    role_kept = has_role;
    slots_kept = λ others e. omega (arith, e);
    within_kept = omega arith;
    named_kept = are_named;
    waits_kept = λ k others e. e;
  }

-- The sessions' functions outside of calls leave slots and role alone, and add no waiter.
pub record SameTable (r r' : BidirRpc) : Type 0 where
  pub role_same : r'.role ≡ r.role
  pub flight_same : r'.in_flight ≡ r.in_flight
  pub waiters_same : r'.waiters ≡ r.waiters

deliver-SameTable : (r : BidirRpc) (n : ℕ) (resp : RpcResponse) → SameTable r (deliver r n resp)
unfolding deliver
deliver-SameTable r n resp = elim (Bool-cases (is_some (lookup n r.channels))) [
  | inl e ↦ rw e (record { role_same = refl; flight_same = refl; waiters_same = refl })
  | inr e ↦ rw e (record { role_same = refl; flight_same = refl; waiters_same = refl })
]

cancel-SameTable : (r : BidirRpc) (id : Bytes) → SameTable r (handle_cancel_request r id)
cancel-SameTable r id =
    let (f, e) = cancel_request_fires r id in
    rw e (record { role_same = refl; flight_same = refl; waiters_same = refl })

dispatch_request-SameTable :
    (r : BidirRpc) (msg : RpcMessage) (expect : Bool) (result : Bytes) (error : Option RpcError)
    → SameTable r (dispatch_request r msg expect result error)
dispatch_request-SameTable r msg expect result error =
    let (w, e) = dispatch_request_writes r msg expect result error in
    rw e (record { role_same = refl; flight_same = refl; waiters_same = refl })

length-numbers : (ws : List (Bytes × ℕ)) → length (numbers ws) ≡ length ws
length-numbers [] = refl
length-numbers ((id, n) ∷ ws) = ap suc (length-numbers ws)

module _ {role : Role} where
  unmoved :
      {r r' : BidirRpc} {calls : List Stage}
      → SameTable r r'
      → IsBounded role r calls
      → IsBounded role r' calls
  unmoved {r} {r'} {calls} s h = record {
    has_role = s.role_same ∙ h.has_role;
    slots = h.slots ∙ sym s.flight_same;
    within = subst (λ w. w ≤ window role) (sym s.flight_same) h.within;
    are_named = subst (AreNamed role) (sym s.waiters_same) h.are_named;
    waits = λ k.
        subst (λ ws. count_of k (numbers ws) ≤ count_of k (gather waiting calls))
          (sym s.waiters_same) (h.waits k);
  }

  close-IsBounded :
      {r : BidirRpc} {calls : List Stage} → IsBounded role r calls → IsBounded role (close r) calls
  unfolding close all_failed
  close-IsBounded {r} {calls} h = elim (Bool-cases r.closed) [
    | inl e ↦ subst (λ b. IsBounded role (if b then r else all_failed r) calls) (sym e) h
    | inr e ↦
        subst (λ b. IsBounded role (if b then r else all_failed r) calls) (sym e)
          (record {
            has_role = h.has_role;
            slots = h.slots;
            within = h.within;
            are_named = tt;
            waits = λ k. omega arith;
          })
  ]

  receive-IsBounded :
      (s : System) (msg : RpcMessage) (way : Route)
      → IsBounded role s.rpc s.calls
      → IsBounded role (receive s msg way).rpc (receive s msg way).calls
  receive-IsBounded s msg dropped h = h
  receive-IsBounded s msg (to_handler expect) h = h
  receive-IsBounded s msg (to_waiter n) h = h
  receive-IsBounded s msg stale h =
      unmoved (record { role_same = refl; flight_same = refl; waiters_same = refl }) h

  advance-IsBounded :
      {r r' : BidirRpc} {calls : List Stage} (before after : List Stage) {c c' : Stage}
      → calls ≡ before ++ c ∷ after
      → CallStep r c r' c'
      → IsBounded role r calls
      → IsBounded role r' (before ++ c' ∷ after)
  advance-IsBounded {r} {r'} before after {c} {c'} e st h =
      let k = CallStep-Keeps h.has_role h.within h.are_named st in
      let others = length (gather slot before) + length (gather slot after) in
      record {
        has_role = k.role_kept;
        slots =
            let was : others + length (slot c) ≡ r.in_flight = omega (
              arith,
              length-gather slot before c after,
              sym (ap (λ l. length (gather slot l)) e) ∙ h.slots,
            ) in
            omega (arith, k.slots_kept others was, length-gather slot before c' after);
        within = k.within_kept;
        are_named = k.named_kept;
        waits = λ j.
            let rest = count_of j (gather waiting before) + count_of j (gather waiting after) in
            let was : count_of j (numbers r.waiters) ≤ rest + count_of j (waiting c) = omega (
              arith,
              h.waits j,
              ap (λ l. count_of j (gather waiting l)) e,
              count_of-gather waiting j before c after,
            ) in
            omega (arith, k.waits_kept j rest was, count_of-gather waiting j before c' after);
      }

  begins-IsBounded :
      {r : BidirRpc} {calls : List Stage}
      → IsBounded role r calls
      → IsBounded role r (calls ++ entered ∷ [])
  unfolding gather
  begins-IsBounded {calls} h = record {
    has_role = h.has_role;
    slots = omega (arith, h.slots, length-gather slot calls entered []);
    within = h.within;
    are_named = h.are_named;
    waits = λ k. omega (arith, h.waits k, count_of-gather waiting k calls entered []);
  }

  Step-IsBounded :
      {s t : System} → Step s t → IsBounded role s.rpc s.calls → IsBounded role t.rpc t.calls
  Step-IsBounded begins h = begins-IsBounded h
  Step-IsBounded (advances before after e st) h = advance-IsBounded before after e st h
  Step-IsBounded {s} (reads msg free v) h = receive-IsBounded s msg (dispatch s.rpc msg) h
  Step-IsBounded {s} (delivers n resp e) h = unmoved (deliver-SameTable s.rpc n resp) h
  Step-IsBounded (notifies method params) h =
      unfold notify send_request in
      unmoved (record { role_same = refl; flight_same = refl; waiters_same = refl }) h
  Step-IsBounded {s} (answers msg expect result error) h =
      unmoved (dispatch_request-SameTable s.rpc msg expect result error) h
  Step-IsBounded {s} (fires id) h = unmoved (cancel-SameTable s.rpc id) h
  Step-IsBounded closes h = close-IsBounded h

  pub Reach-IsBounded : {s : System} → Reach role s → IsBounded role s.rpc s.calls
  unfolding new_bidir_rpc gather
  Reach-IsBounded begin = record {
    has_role = refl;
    slots = refl;
    within = omega arith;
    are_named = tt;
    waits = λ k. omega arith;
  }
  Reach-IsBounded (next reach st) = Step-IsBounded st (Reach-IsBounded reach)

  -- However calls, responses, cancellations and Close interleave: the calls that have passed the
  -- in-flight window and not yet left it are as many as it counts, and these are at most 32 for the
  -- kernel and 64 for a sidecar; and no more calls than that wait for a response.
  pub in_flight_bound :
      {s : System}
      → Reach role s
      → (length (gather slot s.calls) ≡ s.rpc.in_flight)
        × (s.rpc.in_flight ≤ window role)
        × (length s.rpc.waiters ≤ s.rpc.in_flight)
  in_flight_bound {s} reach =
      let h = Reach-IsBounded reach in
      let fewer = length-le_of_counts (numbers s.rpc.waiters) (gather waiting s.calls) h.waits in
      (
        h.slots,
        h.within,
        omega (arith, h.slots, fewer, length-numbers s.rpc.waiters, gather_bound s.calls),
      )
