-- ===== src/Protocol/Rpc/Calls.antt =====
-- The calls of a session as threads: every step of `Call` that another thread can see, interleaved
-- with the reader, with handlers that answer, and with Close.
pub mod Bounds
pub mod Distinct
pub mod Open
pub mod Routed
use brain.Protocol.Rpc.{
  RpcError, RpcMessage, Role, RpcResponse, BidirRpc, window, new_bidir_rpc, make_id, next_id,
  register_waiter, clear_waiter, acquire_slot, release_slot, register_inflight_cancel,
  clear_inflight_cancel, handle_cancel_request, has_handler, send_request, notify,
  send_result_response, send_error_response, close, Route, dropped, to_handler, to_waiter, stale,
  dispatch, response_of, deliver, dispatch_request,
}
use brain.Prelude.Text.{Bytes, bytes_eq}
use brain.Prelude.Assoc.{lookup, delete}
use brain.Prelude.{
  ℕ, ◌+◌, ◌<◌, String, ◌≡◌, refl, inl, inr, Bool, true, false, Option, none, some, List, [], ◌∷◌,
  ◌++◌, arith, if◌then◌else◌, nat_eq, string_eq, ◌==◌, Bool-cases, Option-cases, length,
  length-append,
}
use brain.Errors.Codes

-- How a call ends: with a response, or with an error of its own.
pub data Outcome : Type 0 where
  answered : RpcResponse → Outcome
  failed : String → Outcome

-- Where a call stands in `Call`; a number is its id's.
pub data Stage : Type 0 where
  entered holding : Stage
  numbered registered cancellable sent : ℕ → Stage
  leaving unregistering : ℕ → Outcome → Stage  -- before clearInflightCancel, before clearWaiter
  releasing : Outcome → Stage  -- before releaseSlot
  returned : Outcome → Stage

pub data CallStep (r : BidirRpc) : Stage → BidirRpc → Stage → Type 0 where
  acquires : r.in_flight < window r.role → CallStep r entered (acquire_slot r) holding
  times_out : CallStep r entered r (returned (failed Codes.deadline_exceeded))
  finds_closed : r.closed ≡ true → CallStep r entered r (returned (failed Codes.shutting_down))
  takes_number : CallStep r holding (next_id r).0 (numbered (next_id r).1)
  registers : (n : ℕ) → CallStep r (numbered n) (register_waiter r n) (registered n)
  makes_cancellable :
      (n : ℕ) → CallStep r (registered n) (register_inflight_cancel r n) (cancellable n)
  sends :
      (n : ℕ) (method params : Bytes)
      → CallStep r (cancellable n) (send_request r (make_id r.role n) method params) (sent n)
  -- The writer, or the encoding of the parameters, fails.
  sends_nothing : (n : ℕ) (code : String) → CallStep r (cancellable n) r (leaving n (failed code))
  takes :
      (n : ℕ) (resp : RpcResponse)
      → lookup n r.channels ≡ some resp
      → CallStep r
          (sent n)
          (record r { channels = delete n r.channels })
          (leaving n (answered resp))
  cancels : (n : ℕ) → CallStep r (sent n) r (leaving n (failed Codes.deadline_exceeded))
  sees_closed :
      (n : ℕ) → r.closed ≡ true → CallStep r (sent n) r (leaving n (failed Codes.shutting_down))
  leaves :
      (n : ℕ) (o : Outcome)
      → CallStep r (leaving n o) (clear_inflight_cancel r n) (unregistering n o)
  unregisters :
      (n : ℕ) (o : Outcome) → CallStep r (unregistering n o) (clear_waiter r n) (releasing o)
  releases : (o : Outcome) → CallStep r (releasing o) (release_slot r) (returned o)

-- A session with its calls, and the reader between finding a waiter and sending to its channel.
pub record System : Type 0 where
  pub rpc : BidirRpc
  pub calls : List Stage
  pub reader : Option (ℕ × RpcResponse)
  pub received : List RpcMessage  -- what the reader has dispatched

-- The reader after `dispatch`.
abbrev pub receive : System → RpcMessage → Route → System
receive s msg (to_waiter n) = record s {
  reader = some (n, response_of msg);
  received = s.received ++ msg ∷ [];
}
receive s msg stale = record s {
  rpc = record s.rpc { stale_count = s.rpc.stale_count + 1 };
  received = s.received ++ msg ∷ [];
}
receive s msg dropped = record s { received = s.received ++ msg ∷ [] }
receive s msg (to_handler expect) = record s { received = s.received ++ msg ∷ [] }

pub data Step (s : System) : System → Type 0 where
  begins : Step s (record s { calls = s.calls ++ entered ∷ [] })
  advances :
      (before after : List Stage) {stage stage' : Stage} {r : BidirRpc}
      → s.calls ≡ before ++ stage ∷ after
      → CallStep s.rpc stage r stage'
      → Step s (record s { rpc = r; calls = before ++ stage' ∷ after })
  reads :
      (msg : RpcMessage)
      → s.reader ≡ none
      → (msg.jsonrpc == "2.0") ≡ true
      → Step s (receive s msg (dispatch s.rpc msg))
  delivers :
      (n : ℕ) (resp : RpcResponse)
      → s.reader ≡ some (n, resp)
      → Step s (record s { rpc = deliver s.rpc n resp; reader = none })
  notifies : (method params : Bytes) → Step s (record s { rpc = notify s.rpc method params })
  answers :
      (msg : RpcMessage) (expect : Bool) (result : Bytes) (error : Option RpcError)
      → Step s (record s { rpc = dispatch_request s.rpc msg expect result error })
  fires : (id : Bytes) → Step s (record s { rpc = handle_cancel_request s.rpc id })
  closes : Step s (record s { rpc = close s.rpc })

pub data Reach (role : Role) : System → Type 0 where
  begin : Reach role (record { rpc = new_bidir_rpc role; calls = []; reader = none; received = [] })
  next : {s t : System} → Reach role s → Step s t → Reach role t

-- What all stages of the calls together hold.
unfoldable pub gather {ℓ} : {A : Type ℓ} → (Stage → List A) → List Stage → List A
gather held [] = []
gather held (c ∷ calls) = held c ++ gather held calls

abbrev pub count_of : ℕ → List ℕ → ℕ
count_of k [] = 0
count_of k (x ∷ xs) = (if x == k then 1 else 0) + count_of k xs

pub count_of-append :
    (k : ℕ) (xs ys : List ℕ) → count_of k (xs ++ ys) ≡ count_of k xs + count_of k ys
count_of-append k [] ys = omega arith
count_of-append k (x ∷ xs) ys = omega (arith, count_of-append k xs ys)

-- One call among the others.
pub count_of-gather :
    (held : Stage → List ℕ) (k : ℕ) (before : List Stage) (c : Stage) (after : List Stage)
    → count_of k (gather held (before ++ c ∷ after))
      ≡ count_of k (gather held before) + count_of k (held c) + count_of k (gather held after)
unfolding gather
count_of-gather held k [] c after = omega (arith, count_of-append k (held c) (gather held after))
count_of-gather held k (b ∷ before) c after = omega (
  arith,
  count_of-append k (held b) (gather held (before ++ c ∷ after)),
  count_of-append k (held b) (gather held before),
  count_of-gather held k before c after,
)

pub length-gather :
    (held : Stage → List ℕ) (before : List Stage) (c : Stage) (after : List Stage)
    → length (gather held (before ++ c ∷ after))
      ≡ length (gather held before) + length (held c) + length (gather held after)
unfolding gather
length-gather held [] c after = omega (arith, length-append (held c) (gather held after))
length-gather held (b ∷ before) c after = omega (
  arith,
  length-append (held b) (gather held (before ++ c ∷ after)),
  length-append (held b) (gather held before),
  length-gather held before c after,
)

-- A handler's answer changes nothing but what has been written, and a cancellation nothing but which
-- CancelFuncs have been called.
pub dispatch_request_writes :
    (r : BidirRpc) (msg : RpcMessage) (expect : Bool) (result : Bytes) (error : Option RpcError)
    → (w : List RpcMessage) × (dispatch_request r msg expect result error ≡ record r { wire = w })
unfolding dispatch_request send_result_response send_error_response
dispatch_request_writes r msg false result error = (r.wire, refl)
dispatch_request_writes r msg true result none =
    elim (Bool-cases (has_handler msg.method r.handlers)) [
      | inl e ↦ rw e (_, refl)
      | inr e ↦ rw e (_, refl)
    ]
dispatch_request_writes r msg true result (some x) =
    elim (Bool-cases (has_handler msg.method r.handlers)) [
      | inl e ↦ rw e (_, refl)
      | inr e ↦ rw e (_, refl)
    ]

pub cancel_request_fires :
    (r : BidirRpc) (id : Bytes)
    → (f : List ℕ) × (handle_cancel_request r id ≡ record r { fired = f })
unfolding handle_cancel_request
cancel_request_fires r id = elim (Option-cases (lookup id r.inflight_cancel)) [
  | inl e ↦ rw e (r.fired, refl)
  | inr (n, e) ↦ rw e (_, refl)
]
