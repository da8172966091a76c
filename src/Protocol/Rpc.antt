-- ===== src/Protocol/Rpc.antt =====
-- protocol/rpc.go: the JSON-RPC session between kernel and sidecar, and its calls as threads that
-- interleave with the reader. A message is what `json.Marshal` and `json.Unmarshal` make of a frame's
-- body; a payload is raw JSON. A caller's context may be done at any time.
pub mod Calls
pub mod Peers
mod Tests
use brain.Errors.Codes.{invariant_violated}
use brain.Prelude.Text.Paths.{has_prefix}
use brain.Prelude.Text.{Bytes, bytes_eq, bytes, format_int}
use brain.Prelude.Assoc.{lookup, insert, delete}
use brain.Prelude.{
  ℕ, ◌+◌, ◌-◌, String, Bool, true, false, ◌||◌, not, Option, none, some, List, [], ◌∷◌, ◌++◌,
  if◌then◌else◌, nat_eq, string_eq, ◌==◌, is_some,
}
use brain.Errors.Codes
use brain.Prelude.Int.{ℤ, negsuc, int_eq}

pub record RpcError : Type 0 where
  pub code : ℤ
  pub message : Bytes
  pub payload : Bytes

pub record RpcMessage : Type 0 where
  pub jsonrpc : String
  pub id : Bytes
  pub method : Bytes
  pub params : Bytes
  pub result : Bytes
  pub error : Option RpcError

pub data Role : Type 0 where
  kernel sidecar : Role

-- `Prefix`, as a byte: `k` or `s`.
unfoldable pub prefix : Role → ℕ
prefix kernel = 107
prefix sidecar = 115

unfoldable pub peer_prefix : Role → ℕ
peer_prefix kernel = 115
peer_prefix sidecar = 107

-- What a waiter's channel carries: a result, the peer's error, or that the session has closed.
pub data RpcResponse : Type 0 where
  got_result : Bytes → RpcResponse
  got_error : RpcError → RpcResponse
  got_closed : RpcResponse

-- A channel is named by the number of the call that has made it, and is in `channels` while its one
-- place is taken.
pub record BidirRpc : Type 0 where
  pub role : Role
  pub seq : ℕ
  pub waiters : List (Bytes × ℕ)
  pub channels : List (ℕ × RpcResponse)
  pub handlers : List Bytes
  pub in_flight : ℕ
  pub inflight_cancel : List (Bytes × ℕ)
  pub fired : List ℕ  -- the calls whose CancelFunc has been called
  pub stale_count : ℕ
  pub started : Bool
  pub closed : Bool
  pub wire : List RpcMessage  -- what has been written

-- The capacity of the in-flight window.
unfoldable pub window : Role → ℕ
window kernel = 32
window sidecar = 64

-- `$/cancelRequest`.
abbrev pub cancel_request : Bytes
unfolding bytes
cancel_request = bytes "$/cancelRequest"

unfoldable pub new_bidir_rpc : Role → BidirRpc
new_bidir_rpc role = record {
  role = role;
  seq = 0;
  waiters = [];
  channels = [];
  handlers = cancel_request ∷ [];
  in_flight = 0;
  inflight_cancel = [];
  fired = [];
  stale_count = 0;
  started = false;
  closed = false;
  wire = [];
}

unfoldable pub start : BidirRpc → BidirRpc × Option String
start r =
    if r.started then (r, some Codes.invariant_violated) else (record r { started = true }, none)

-- `<prefix>:<seq>`.
unfoldable pub make_id : Role → ℕ → Bytes
unfolding prefix format_int
make_id role n = prefix role ∷ 58 ∷ format_int n

unfoldable pub next_id : BidirRpc → BidirRpc × ℕ
next_id r = (record r { seq = r.seq + 1 }, r.seq + 1)

unfoldable pub register_waiter : BidirRpc → ℕ → BidirRpc
unfolding make_id insert
register_waiter r n = record r { waiters = insert (make_id r.role n) n r.waiters }

unfoldable pub clear_waiter : BidirRpc → ℕ → BidirRpc
unfolding make_id delete
clear_waiter r n = record r { waiters = delete (make_id r.role n) r.waiters }

-- `acquireSlot` where a slot is free.
unfoldable pub acquire_slot : BidirRpc → BidirRpc
acquire_slot r = record r { in_flight = r.in_flight + 1 }

unfoldable pub release_slot : BidirRpc → BidirRpc
release_slot r = record r { in_flight = r.in_flight - 1 }

unfoldable pub register_inflight_cancel : BidirRpc → ℕ → BidirRpc
unfolding make_id insert
register_inflight_cancel r n = record r {
  inflight_cancel = insert (make_id r.role n) n r.inflight_cancel;
}

unfoldable pub clear_inflight_cancel : BidirRpc → ℕ → BidirRpc
unfolding make_id delete
clear_inflight_cancel r n = record r {
  inflight_cancel = delete (make_id r.role n) r.inflight_cancel;
}

abbrev fire : BidirRpc → Option ℕ → BidirRpc
fire r none = r
fire r (some n) = record r { fired = n ∷ r.fired }

-- `handleCancelRequest` for the id that its parameters name.
unfoldable pub handle_cancel_request : BidirRpc → Bytes → BidirRpc
unfolding lookup
handle_cancel_request r id = fire r (lookup id r.inflight_cancel)

unfoldable pub has_handler : Bytes → List Bytes → Bool
has_handler method [] = false
has_handler method (h ∷ handlers) = h == method || has_handler method handlers

-- `none` is the panic on a second handler for a method.
unfoldable pub handle : BidirRpc → Bytes → Option BidirRpc
unfolding has_handler
handle r method =
    if has_handler method r.handlers
    then none
    else some (record r { handlers = method ∷ r.handlers })

abbrev pub empty_message : Bytes → RpcMessage
empty_message id = record {
  jsonrpc = "2.0";
  id = id;
  method = [];
  params = [];
  result = [];
  error = none;
}

abbrev pub write : BidirRpc → RpcMessage → BidirRpc
write r msg = record r { wire = r.wire ++ msg ∷ [] }

-- `sendRequest` where the writer takes the frame; a Notification has no id.
unfoldable pub send_request : BidirRpc → Bytes → Bytes → Bytes → BidirRpc
send_request r id method params =
    write r (record (empty_message id) { method = method; params = params })

-- `Notify`.
unfoldable pub notify : BidirRpc → Bytes → Bytes → BidirRpc
unfolding send_request
notify r method params = send_request r [] method params

unfoldable pub send_result_response : BidirRpc → Bytes → Bytes → BidirRpc
send_result_response r id result = write r (record (empty_message id) { result = result })

unfoldable pub send_error_response : BidirRpc → Bytes → RpcError → BidirRpc
send_error_response r id e = write r (record (empty_message id) { error = some e })

-- The non-blocking send to a channel, by Close.
abbrev offer : List (ℕ × RpcResponse) → ℕ → List (ℕ × RpcResponse)
unfolding lookup insert
offer channels n = if is_some (lookup n channels) then channels else insert n got_closed channels

unfoldable pub fail_all : List (Bytes × ℕ) → List (ℕ × RpcResponse) → List (ℕ × RpcResponse)
unfolding offer
fail_all [] channels = channels
fail_all ((id, n) ∷ waiters) channels = fail_all waiters (offer channels n)

-- Every waiter is told that the session has closed.
unfoldable pub all_failed : BidirRpc → BidirRpc
unfolding fail_all
all_failed r = record r { closed = true; waiters = []; channels = fail_all r.waiters r.channels }

unfoldable pub close : BidirRpc → BidirRpc
unfolding all_failed
close r = if r.closed then r else all_failed r

-- Where `dispatch` sends a message.
pub data Route : Type 0 where
  dropped : Route
  to_handler : Bool → Route  -- with or without a response
  to_waiter : ℕ → Route  -- the channel that it has found
  stale : Route

abbrev to_found : Option ℕ → Route
to_found none = stale
to_found (some n) = to_waiter n

unfoldable pub dispatch : BidirRpc → RpcMessage → Route
unfolding has_prefix lookup peer_prefix prefix
dispatch r msg =
    if msg.id == []
    then (if msg.method == [] then dropped else to_handler false)
    else if not (msg.method == [])
    then (if has_prefix msg.id (peer_prefix r.role ∷ 58 ∷ []) then to_handler true else dropped)
    else if has_prefix msg.id (prefix r.role ∷ 58 ∷ [])
    then to_found (lookup msg.id r.waiters)
    else dropped

-- What a response says.
abbrev pub response_of : RpcMessage → RpcResponse
response_of msg = elim msg.error [ none ↦ got_result msg.result | some e ↦ got_error e ]

-- The send to the waiter's channel.
unfoldable pub deliver : BidirRpc → ℕ → RpcResponse → BidirRpc
unfolding lookup insert
deliver r n resp =
    if is_some (lookup n r.channels)
    then record r { stale_count = r.stale_count + 1 }
    else record r { channels = insert n resp r.channels }

-- `dispatchRequest` of a request or a Notification whose handler, if there is one, returns the given
-- result or error.
unfoldable pub dispatch_request : BidirRpc → RpcMessage → Bool → Bytes → Option RpcError → BidirRpc
unfolding has_handler send_result_response send_error_response bytes
dispatch_request r msg expect_response result error =
    if not expect_response
    then r
    else if has_handler msg.method r.handlers
    then elim error [
      | none ↦ send_result_response r msg.id result
      | some e ↦ send_error_response r msg.id e
    ]
    else send_error_response r msg.id (record {
      code = negsuc 32600;
      message = bytes "method not found: " ++ msg.method;
      payload = [];
    })
