-- ===== src/Protocol/Rpc/Calls/Open.antt =====
-- The waiter of a call stands under the call's id until the call itself removes it.

use brain.Prelude.Text.{bytes_eq}
use mathlib.Core.Path.{subst}
use brain.Protocol.Rpc.Peers.{reply_of, own_prefix, routes_response}
use brain.Protocol.Rpc.{
  bytes_eq, to_found, RpcMessage, Role, RpcResponse, BidirRpc, make_id, next_id, register_waiter,
  clear_waiter, acquire_slot, release_slot, register_inflight_cancel, clear_inflight_cancel,
  send_request, notify, all_failed, close, Route, dropped, to_handler, to_waiter, stale, dispatch,
  deliver,
}
use brain.Protocol.Rpc.Calls.{
  Stage, entered, holding, numbered, registered, cancellable, sent, leaving, unregistering,
  releasing, returned, CallStep, acquires, times_out, finds_closed, takes_number, registers,
  makes_cancellable, sends, sends_nothing, takes, cancels, sees_closed, leaves, unregisters,
  releases, System, receive, Step, begins, advances, reads, delivers, notifies, answers, fires,
  closes, Reach, begin, next, gather, count_of, count_of-append, count_of-gather,
  dispatch_request_writes, cancel_request_fires,
}
use brain.Protocol.Rpc.Calls.Bounds.{waiting, Reach-IsBounded}
use brain.Protocol.Rpc.Calls.Distinct.{
  number_of, allowance, IsDistinct, Reach-IsDistinct, make_id-injective,
}
use brain.Prelude.Assoc.{lookup, insert, lookup-insert, lookup-delete, beq_refl}
use brain.Prelude.{
  ℕ, ◌+◌, ◌^◌, ◌≤◌, ◌<◌, ◌≡◌, refl, sym, ap, ◌∙◌, inl, inr, true, false, Option, none, some, List,
  [], ◌∷◌, ◌++◌, arith, if◌then◌else◌, nat_eq, string_eq, ◌==◌, Bool-cases, Option-cases, is_some,
}
use mathlib.Core.Bool.{false≢true}

waiting_bound : (k : ℕ) (c : Stage) → count_of k (waiting c) ≤ count_of k (number_of c)
waiting_bound k entered = omega arith
waiting_bound k holding = omega arith
waiting_bound k (numbered n) = omega arith
waiting_bound k (registered n) = omega arith
waiting_bound k (cancellable n) = omega arith
waiting_bound k (sent n) = omega arith
waiting_bound k (leaving n o) = omega arith
waiting_bound k (unregistering n o) = omega arith
waiting_bound k (releasing o) = omega arith
waiting_bound k (returned o) = omega arith

all_waiting_bound :
    (k : ℕ) (calls : List Stage)
    → count_of k (gather waiting calls) ≤ count_of k (gather number_of calls)
unfolding gather
all_waiting_bound k [] = omega arith
all_waiting_bound k (c ∷ calls) = omega (
  arith,
  waiting_bound k c,
  all_waiting_bound k calls,
  count_of-append k (waiting c) (gather waiting calls),
  count_of-append k (number_of c) (gather number_of calls),
)

-- What stands in the table for the numbers of the calls that wait.
abbrev HasWaiters : BidirRpc → (ℕ → ℕ) → Type 0
HasWaiters r waits = (k : ℕ) → 1 ≤ waits k → lookup (make_id r.role k) r.waiters ≡ some k

other_id :
    (role : Role) (seq n k : ℕ)
    → seq < 2 ^ 63
    → n ≤ seq
    → k ≤ seq
    → (n == k) ≡ false
    → (make_id role n == make_id role k) ≡ false
other_id role seq n k small hn hk e = elim (Bool-cases (make_id role n == make_id role k)) [
  | inr d ↦ d
  | inl q ↦
      let same =
        make_id-injective role n k (omega (arith, small, hn)) (omega (arith, small, hk))
          ((bytes_eq.beq_iff _ _).0 q) in
      absurd (false≢true (sym e ∙ (nat_eq.beq_iff n k).1 same))
]

-- A number that stands among the calls has been given.
given : (seq k n : ℕ) → 1 ≤ n → n ≤ allowance seq k → k ≤ seq
given seq k n one h = ground (arith, one, h)

module _ (r : BidirRpc) (small : r.seq < 2 ^ 63) where
  insert-HasWaiters :
      (n : ℕ) (others taken : ℕ → ℕ)
      → ((k : ℕ) → others k ≤ taken k)
      → ((k : ℕ) → taken k + count_of k (n ∷ []) ≤ allowance r.seq k)
      → HasWaiters r others
      → HasWaiters (register_waiter r n) (λ k. others k + count_of k (n ∷ []))
  unfolding register_waiter
  insert-HasWaiters n others taken fewer room h k one =
      let put = lookup-insert (make_id r.role n) (make_id r.role k) n r.waiters in
      elim (Bool-cases (n == k)) [
        | inl e ↦
            let same = (nat_eq.beq_iff n k).0 e in
            let id = (bytes_eq.beq_iff _ _).1 (ap (make_id r.role) same) in
            put ∙ rw id (ap some same)
        | inr e ↦
            let there : 1 ≤ others k + (0 + 0) = rw e at one in
            let k_given =
              given r.seq k (taken k + count_of k (n ∷ [])) (omega (arith, there, fewer k))
                (room k) in
            let n_given = given r.seq n (taken n + count_of n (n ∷ [])) (ground arith) (room n) in
            let id = other_id r.role r.seq n k small n_given k_given e in
            put ∙ rw id (h k (omega (arith, there)))
      ]

  delete-HasWaiters :
      (n : ℕ) (others taken : ℕ → ℕ)
      → ((k : ℕ) → others k ≤ taken k)
      → ((k : ℕ) → taken k + count_of k (n ∷ []) ≤ allowance r.seq k)
      → HasWaiters r (λ k. others k + count_of k (n ∷ []))
      → HasWaiters (clear_waiter r n) others
  unfolding clear_waiter
  delete-HasWaiters n others taken fewer room h k one =
      let cut = lookup-delete (make_id r.role n) (make_id r.role k) r.waiters in
      elim (Bool-cases (n == k)) [
        | inl e ↦
            let full : taken k + (1 + 0) ≤ allowance r.seq k = rw e at (room k) in
            absurd (ground (arith, full, one, fewer k))
        | inr e ↦
            let k_given =
              given r.seq k (taken k + count_of k (n ∷ [])) (omega (arith, one, fewer k))
                (room k) in
            let n_given = given r.seq n (taken n + count_of n (n ∷ [])) (ground arith) (room n) in
            let id = other_id r.role r.seq n k small n_given k_given e in
            cut ∙ rw id (h k (omega (arith, one)))
      ]

CallStep-HasWaiters :
    {r r' : BidirRpc} {c c' : Stage} (others taken : ℕ → ℕ)
    → CallStep r c r' c'
    → r.seq < 2 ^ 63
    → ((k : ℕ) → others k ≤ taken k)
    → ((k : ℕ) → taken k + count_of k (number_of c) ≤ allowance r.seq k)
    → HasWaiters r (λ k. others k + count_of k (waiting c))
    → HasWaiters r' (λ k. others k + count_of k (waiting c'))
unfolding acquire_slot release_slot next_id register_inflight_cancel clear_inflight_cancel
    send_request
CallStep-HasWaiters others taken (acquires e) small fewer room h = h
CallStep-HasWaiters others taken times_out small fewer room h = h
CallStep-HasWaiters others taken (finds_closed e) small fewer room h = h
CallStep-HasWaiters others taken takes_number small fewer room h = h
CallStep-HasWaiters {r} others taken (registers n) small fewer room h =
    insert-HasWaiters r small n others taken fewer room (λ k one. h k (omega (arith, one)))
CallStep-HasWaiters others taken (makes_cancellable n) small fewer room h = h
CallStep-HasWaiters others taken (sends n method params) small fewer room h = h
CallStep-HasWaiters others taken (sends_nothing n code) small fewer room h = h
CallStep-HasWaiters others taken (takes n resp e) small fewer room h = h
CallStep-HasWaiters others taken (cancels n) small fewer room h = h
CallStep-HasWaiters others taken (sees_closed n e) small fewer room h = h
CallStep-HasWaiters others taken (leaves n o) small fewer room h = h
CallStep-HasWaiters {r} others taken (unregisters n o) small fewer room h =
    λ k one. delete-HasWaiters r small n others taken fewer room h k (omega (arith, one))
CallStep-HasWaiters others taken (releases o) small fewer room h = h

-- No step of a call closes the session, or takes a number back.
CallStep-flags :
    {r r' : BidirRpc} {c c' : Stage}
    → CallStep r c r' c'
    → (r'.closed ≡ r.closed) × (r.seq ≤ r'.seq)
unfolding acquire_slot release_slot next_id register_waiter clear_waiter register_inflight_cancel
    clear_inflight_cancel send_request
CallStep-flags (acquires e) = (refl, omega arith)
CallStep-flags times_out = (refl, omega arith)
CallStep-flags (finds_closed e) = (refl, omega arith)
CallStep-flags takes_number = (refl, omega arith)
CallStep-flags (registers n) = (refl, omega arith)
CallStep-flags (makes_cancellable n) = (refl, omega arith)
CallStep-flags (sends n method params) = (refl, omega arith)
CallStep-flags (sends_nothing n code) = (refl, omega arith)
CallStep-flags (takes n resp e) = (refl, omega arith)
CallStep-flags (cancels n) = (refl, omega arith)
CallStep-flags (sees_closed n e) = (refl, omega arith)
CallStep-flags (leaves n o) = (refl, omega arith)
CallStep-flags (unregisters n o) = (refl, omega arith)
CallStep-flags (releases o) = (refl, omega arith)

abbrev IsOpen : BidirRpc → List Stage → Type 0
IsOpen r calls =
    r.closed ≡ false → r.seq < 2 ^ 63 → HasWaiters r (λ k. count_of k (gather waiting calls))

advance-IsOpen :
    {r r' : BidirRpc} {calls : List Stage} (before after : List Stage) {c c' : Stage}
    → calls ≡ before ++ c ∷ after
    → CallStep r c r' c'
    → IsDistinct r.seq calls
    → IsOpen r calls
    → IsOpen r' (before ++ c' ∷ after)
advance-IsOpen {r} before after {c} {c'} e st d h live small k one =
    let (same, up) = CallStep-flags st in
    let others =
      λ (j : ℕ). count_of j (gather waiting before) + count_of j (gather waiting after) in
    let taken =
      λ (j : ℕ). count_of j (gather number_of before) + count_of j (gather number_of after) in
    let fewer : (j : ℕ) → others j ≤ taken j =
      λ j. omega (arith, all_waiting_bound j before, all_waiting_bound j after) in
    let room : (j : ℕ) → taken j + count_of j (number_of c) ≤ allowance r.seq j = λ j.
      let held = subst (λ l. count_of j (gather number_of l) ≤ allowance r.seq j) e (d j) in
      omega (arith, held, count_of-gather number_of j before c after) in
    let had : HasWaiters r (λ j. others j + count_of j (waiting c)) = λ j waits.
      h (sym same ∙ live) (omega (arith, up, small)) j (
        subst (λ l. 1 ≤ count_of j (gather waiting l)) (sym e)
          (omega (arith, waits, count_of-gather waiting j before c after))) in
    CallStep-HasWaiters others taken st (omega (arith, up, small)) fewer room had k
      (omega (arith, one, count_of-gather waiting k before c' after))

close-closed : (r : BidirRpc) → (close r).closed ≡ true
unfolding close all_failed
close-closed r = elim (Bool-cases r.closed) [ inl e ↦ rw e refl | inr e ↦ rw e refl ]

deliver-IsOpen :
    (r : BidirRpc) (n : ℕ) (resp : RpcResponse) (calls : List Stage)
    → IsOpen r calls
    → IsOpen (deliver r n resp) calls
unfolding deliver
deliver-IsOpen r n resp calls h = elim (Bool-cases (is_some (lookup n r.channels))) [
  | inl e ↦
      subst
        (λ b.
          IsOpen
            (if b
              then record r { stale_count = r.stale_count + 1 }
              else record r { channels = insert n resp r.channels })
            calls)
        (sym e) h
  | inr e ↦
      subst
        (λ b.
          IsOpen
            (if b
              then record r { stale_count = r.stale_count + 1 }
              else record r { channels = insert n resp r.channels })
            calls)
        (sym e) h
]

receive-IsOpen :
    (s : System) (msg : RpcMessage) (way : Route)
    → IsOpen s.rpc s.calls
    → IsOpen (receive s msg way).rpc (receive s msg way).calls
receive-IsOpen s msg dropped h = h
receive-IsOpen s msg (to_handler expect) h = h
receive-IsOpen s msg (to_waiter n) h = h
receive-IsOpen s msg stale h = h

Step-IsOpen :
    {s t : System}
    → Step s t
    → IsDistinct s.rpc.seq s.calls
    → IsOpen s.rpc s.calls
    → IsOpen t.rpc t.calls
unfolding gather notify send_request
Step-IsOpen {s} begins d h = λ live small k one.
    h live small k (omega (arith, one, count_of-gather waiting k s.calls entered []))
Step-IsOpen (advances before after e st) d h = advance-IsOpen before after e st d h
Step-IsOpen {s} (reads msg free v) d h = receive-IsOpen s msg (dispatch s.rpc msg) h
Step-IsOpen {s} (delivers n resp e) d h = deliver-IsOpen s.rpc n resp s.calls h
Step-IsOpen (notifies method params) d h = h
Step-IsOpen {s} (answers msg expect result error) d h =
    let (w, e) = dispatch_request_writes s.rpc msg expect result error in
    subst (λ q. IsOpen q s.calls) (sym e) h
Step-IsOpen {s} (fires id) d h =
    let (f, e) = cancel_request_fires s.rpc id in subst (λ q. IsOpen q s.calls) (sym e) h
Step-IsOpen {s} closes d h = λ live small k one. absurd (false≢true (sym live ∙ close-closed s.rpc))

Reach-IsOpen : {role : Role} {s : System} → Reach role s → IsOpen s.rpc s.calls
unfolding gather
Reach-IsOpen begin = λ live small k one. absurd (omega (arith, one))
Reach-IsOpen (next reach st) = Step-IsOpen st (Reach-IsDistinct reach) (Reach-IsOpen reach)

-- The response that stays in a channel that is sent another one.
abbrev pub held_or : Option RpcResponse → RpcResponse → RpcResponse
held_or none resp = resp
held_or (some first) resp = first

deliver-channel :
    (r : BidirRpc) (n : ℕ) (resp : RpcResponse)
    → (lookup n (deliver r n resp).channels ≡ some (held_or (lookup n r.channels) resp))
      × ((deliver r n resp).stale_count
          ≡ r.stale_count + (if is_some (lookup n r.channels) then 1 else 0))
unfolding deliver
deliver-channel r n resp = elim (Option-cases (lookup n r.channels)) [
  | inl e ↦ rw e (lookup-insert n n resp r.channels ∙ rw (beq_refl n) refl, omega arith)
  | inr (first, e) ↦ rw e (e, refl)
]

-- However calls, responses, cancellations and Close interleave: as long as the session is not closed
-- and fewer than 2^63 calls have been made, a response with the id of a call that waits for one is
-- routed to the channel of this call. If it is sent there before anything else happens, the channel
-- holds it, and nothing is counted as stale, where the channel was empty; where it held a response
-- already, it keeps that one and the new one is counted as stale.
pub answer_finds_call :
    {role : Role} {s : System} (before after : List Stage) (n : ℕ) (resp : RpcResponse)
    → Reach role s
    → s.rpc.closed ≡ false
    → s.rpc.seq < 2 ^ 63
    → s.calls ≡ before ++ sent n ∷ after
    → let r' = deliver s.rpc n resp in
      let held = lookup n s.rpc.channels in
      (dispatch s.rpc (reply_of (make_id role n) resp) ≡ to_waiter n)
      × (lookup n r'.channels ≡ some (held_or held resp))
      × (r'.stale_count ≡ s.rpc.stale_count + (if is_some held then 1 else 0))
answer_finds_call {role} {s} before after n resp reach live small e =
    let waits : 1 ≤ count_of n (gather waiting (before ++ sent n ∷ after)) =
      grind (arith, count_of-gather waiting n before (sent n) after) in
    let there =
      Reach-IsOpen reach live small n
        (subst (λ l. 1 ≤ count_of n (gather waiting l)) (sym e) waits) in
    let (kept, counted) = deliver-channel s.rpc n resp in
    (
      subst (λ q. dispatch s.rpc (reply_of (make_id q n) resp) ≡ to_waiter n)
          (Reach-IsBounded reach).has_role
          (routes_response s.rpc s.rpc.role n resp true (own_prefix s.rpc.role n)
            ∙ ap to_found there),
      kept,
      counted,
    )
