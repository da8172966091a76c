-- ===== src/Protocol/Rpc/Calls/Distinct.antt =====
-- No two calls of a session have one number, and so none have one id.
use brain.Protocol.Rpc.{
  RpcError, RpcMessage, Role, RpcResponse, BidirRpc, make_id, next_id, register_waiter,
  clear_waiter, acquire_slot, release_slot, register_inflight_cancel, clear_inflight_cancel,
  handle_cancel_request, send_request, notify, all_failed, close, Route, dropped, to_handler,
  to_waiter, stale, dispatch, deliver, dispatch_request,
}
use brain.Protocol.Rpc.Calls.{
  Stage, entered, holding, numbered, registered, cancellable, sent, leaving, unregistering,
  releasing, returned, CallStep, acquires, times_out, finds_closed, takes_number, registers,
  makes_cancellable, sends, sends_nothing, takes, cancels, sees_closed, leaves, unregisters,
  releases, System, receive, Step, begins, advances, reads, delivers, notifies, answers, fires,
  closes, Reach, begin, next, gather, count_of, count_of-gather, dispatch_request_writes,
  cancel_request_fires,
}
use brain.Prelude.Text.{Bytes, bytes_eq, format_int, atoi}
use brain.Prelude.Assoc.{lookup}
use brain.Prelude.Int.{pos, int_eq}
use brain.Prelude.Text.Decimal.{atoi-format_int}
use brain.Prelude.{
  ℕ, ◌+◌, ◌^◌, ◌≤◌, ◌<◌, ◌≡◌, refl, sym, ap, ◌∙◌, ◌≢◌, inl, inr, Bool, Option, List, [], ◌∷◌, ◌++◌,
  arith, leb, if◌then◌else◌, nat_eq, string_eq, Bool-cases, is_some,
}
use mathlib.Core.Path.{subst}
use mathlib.Core.Option.{some-injective}

-- The number of a call from nextID on, as long as the session may know it.
abbrev pub number_of : Stage → List ℕ
number_of entered = []
number_of holding = []
number_of (numbered n) = n ∷ []
number_of (registered n) = n ∷ []
number_of (cancellable n) = n ∷ []
number_of (sent n) = n ∷ []
number_of (leaving n o) = n ∷ []
number_of (unregistering n o) = n ∷ []
number_of (releasing o) = []
number_of (returned o) = []

-- How often a number may stand among the calls when `seq` numbers have been given.
abbrev pub allowance : ℕ → ℕ → ℕ
allowance seq k = if leb k seq then 1 else 0

abbrev pub IsDistinct : ℕ → List Stage → Type 0
IsDistinct seq calls = (k : ℕ) → count_of k (gather number_of calls) ≤ allowance seq k

pub CallStep-number :
    {r r' : BidirRpc} {c c' : Stage} (k others : ℕ)
    → CallStep r c r' c'
    → others + count_of k (number_of c) ≤ allowance r.seq k
    → others + count_of k (number_of c') ≤ allowance r'.seq k
unfolding acquire_slot release_slot next_id register_waiter clear_waiter register_inflight_cancel
    clear_inflight_cancel send_request
CallStep-number k others (acquires h) e = e
CallStep-number k others times_out e = e
CallStep-number k others (finds_closed h) e = e
CallStep-number k others takes_number e = ground (arith, e)
CallStep-number k others (registers n) e = e
CallStep-number k others (makes_cancellable n) e = e
CallStep-number k others (sends n method params) e = e
CallStep-number k others (sends_nothing n code) e = e
CallStep-number k others (takes n resp h) e = e
CallStep-number k others (cancels n) e = e
CallStep-number k others (sees_closed n h) e = e
CallStep-number k others (leaves n o) e = e
CallStep-number k others (unregisters n o) e = omega (arith, e)
CallStep-number k others (releases o) e = e

pub deliver-seq : (r : BidirRpc) (n : ℕ) (resp : RpcResponse) → (deliver r n resp).seq ≡ r.seq
unfolding deliver
deliver-seq r n resp = elim (Bool-cases (is_some (lookup n r.channels))) [
  | inl e ↦ rw e refl
  | inr e ↦ rw e refl
]

pub close-seq : (r : BidirRpc) → (close r).seq ≡ r.seq
unfolding close all_failed
close-seq r = elim (Bool-cases r.closed) [ inl e ↦ rw e refl | inr e ↦ rw e refl ]

cancel-seq : (r : BidirRpc) (id : Bytes) → (handle_cancel_request r id).seq ≡ r.seq
cancel-seq r id = let (f, e) = cancel_request_fires r id in rw e refl

dispatch_request-seq :
    (r : BidirRpc) (msg : RpcMessage) (expect : Bool) (result : Bytes) (error : Option RpcError)
    → (dispatch_request r msg expect result error).seq ≡ r.seq
dispatch_request-seq r msg expect result error =
    let (w, e) = dispatch_request_writes r msg expect result error in rw e refl

receive-IsDistinct :
    (s : System) (msg : RpcMessage) (way : Route)
    → IsDistinct s.rpc.seq s.calls
    → IsDistinct (receive s msg way).rpc.seq (receive s msg way).calls
receive-IsDistinct s msg dropped h = h
receive-IsDistinct s msg (to_handler expect) h = h
receive-IsDistinct s msg (to_waiter n) h = h
receive-IsDistinct s msg stale h = h

same_seq :
    {seq seq' : ℕ} (calls : List Stage) → seq' ≡ seq → IsDistinct seq calls → IsDistinct seq' calls
same_seq calls e h = subst (λ q. IsDistinct q calls) (sym e) h

advance-IsDistinct :
    {r r' : BidirRpc} {calls : List Stage} (before after : List Stage) {c c' : Stage}
    → calls ≡ before ++ c ∷ after
    → CallStep r c r' c'
    → IsDistinct r.seq calls
    → IsDistinct r'.seq (before ++ c' ∷ after)
advance-IsDistinct {r} before after {c} {c'} e st h k =
    let others = count_of k (gather number_of before) + count_of k (gather number_of after) in
    let was : others + count_of k (number_of c) ≤ allowance r.seq k = omega (
      arith,
      h k,
      ap (λ l. count_of k (gather number_of l)) e,
      count_of-gather number_of k before c after,
    ) in
    omega (arith, CallStep-number k others st was, count_of-gather number_of k before c' after)

Step-IsDistinct :
    {s t : System} → Step s t → IsDistinct s.rpc.seq s.calls → IsDistinct t.rpc.seq t.calls
unfolding gather notify send_request
Step-IsDistinct {s} begins h =
    λ k. omega (arith, h k, count_of-gather number_of k s.calls entered [])
Step-IsDistinct {s} (advances before after e st) h = advance-IsDistinct before after e st h
Step-IsDistinct {s} (reads msg free v) h = receive-IsDistinct s msg (dispatch s.rpc msg) h
Step-IsDistinct {s} (delivers n resp e) h = same_seq s.calls (deliver-seq s.rpc n resp) h
Step-IsDistinct (notifies method params) h = h
Step-IsDistinct {s} (answers msg expect result error) h =
    same_seq s.calls (dispatch_request-seq s.rpc msg expect result error) h
Step-IsDistinct {s} (fires id) h = same_seq s.calls (cancel-seq s.rpc id) h
Step-IsDistinct {s} closes h = same_seq s.calls (close-seq s.rpc) h

pub Reach-IsDistinct : {role : Role} {s : System} → Reach role s → IsDistinct s.rpc.seq s.calls
unfolding gather
Reach-IsDistinct begin = λ k. omega arith
Reach-IsDistinct (next reach st) = Step-IsDistinct st (Reach-IsDistinct reach)

pub make_id-injective :
    (role : Role) (n m : ℕ) → n < 2 ^ 63 → m < 2 ^ 63 → make_id role n ≡ make_id role m → n ≡ m
unfolding make_id
make_id-injective role n m hn hm e =
    let texts : format_int n ≡ format_int m = cc in
    let same : pos n ≡ pos m =
      some-injective _ _ (sym (atoi-format_int n hn) ∙ ap atoi texts ∙ atoi-format_int m hm) in
    cc

-- Two calls with the number `n` and `m` hold what the numbers given allow.
pair_bound :
    (seq : ℕ) (calls before middle after : List Stage) (c d : Stage) (n m k : ℕ)
    → IsDistinct seq calls
    → calls ≡ before ++ c ∷ (middle ++ d ∷ after)
    → number_of c ≡ n ∷ []
    → number_of d ≡ m ∷ []
    → count_of k (n ∷ []) + count_of k (m ∷ []) ≤ allowance seq k
pair_bound seq calls before middle after c d n m k h e at_c at_d =
    let bound : count_of k (gather number_of (before ++ c ∷ (middle ++ d ∷ after)))
        ≤ allowance seq k =
      subst (λ l. count_of k (gather number_of l) ≤ allowance seq k) e (h k) in
    let at_n : count_of k (number_of c) ≡ count_of k (n ∷ []) = ap (count_of k) at_c in
    let at_m : count_of k (number_of d) ≡ count_of k (m ∷ []) = ap (count_of k) at_d in
    omega (
      arith,
      bound,
      count_of-gather number_of k before c (middle ++ d ∷ after),
      count_of-gather number_of k middle d after,
      at_n,
      at_m,
    )

-- However calls, responses, cancellations and Close interleave: as long as fewer than 2^63 calls have
-- been made, two calls that run at once have different ids.
pub ids_distinct :
    {role : Role} {s : System} (before middle after : List Stage) (c d : Stage) (n m : ℕ)
    → Reach role s
    → s.rpc.seq < 2 ^ 63
    → s.calls ≡ before ++ c ∷ (middle ++ d ∷ after)
    → number_of c ≡ n ∷ []
    → number_of d ≡ m ∷ []
    → make_id role n ≢ make_id role m
ids_distinct {role} {s} before middle after c d n m reach small e at_c at_d same =
    let h = Reach-IsDistinct reach in
    let first = pair_bound s.rpc.seq s.calls before middle after c d n m n h e at_c at_d in
    let second = pair_bound s.rpc.seq s.calls before middle after c d n m m h e at_c at_d in
    let equal : n ≡ m =
      make_id-injective role n m (grind (arith, first)) (grind (arith, second)) same in
    let twice : count_of n (n ∷ []) + count_of n (n ∷ []) ≤ allowance s.rpc.seq n =
      subst (λ j. count_of n (n ∷ []) + count_of n (j ∷ []) ≤ allowance s.rpc.seq n) (sym equal)
        first in
    absurd (grind (arith, twice))
