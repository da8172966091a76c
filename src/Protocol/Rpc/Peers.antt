-- ===== src/Protocol/Rpc/Peers.antt =====
-- A kernel and a sidecar that exchange a request and its response.
use brain.Protocol.Rpc.{
  to_found, RpcError, RpcMessage, Role, kernel, sidecar, prefix, peer_prefix, RpcResponse,
  got_result, got_error, got_closed, BidirRpc, make_id, has_handler, empty_message,
  send_result_response, send_error_response, dropped, to_handler, dispatch, dispatch_request,
}
use brain.Prelude.Text.Paths.{has_prefix}
use brain.Prelude.Text.{Bytes, is_bytes, bytes_eq, bytes}
use brain.Prelude.Assoc.{lookup}
use brain.Prelude.{
  ℕ, ◌≡◌, refl, ◌≢◌, inl, inr, Bool, true, false, Option, none, some, [], ◌∷◌, ◌++◌, if◌then◌else◌,
  nat_eq, string_eq, ◌==◌, Bool-cases,
}
use brain.Prelude.Int.{negsuc}

-- The request that `Call` sends with a number.
abbrev pub request_of : Role → ℕ → Bytes → Bytes → RpcMessage
request_of role n method params = record (empty_message (make_id role n)) {
  method = method;
  params = params;
}

-- What the peer is to answer to a method.
abbrev pub answer_of : BidirRpc → Bytes → Bytes → Option RpcError → RpcResponse
answer_of p method result error =
    if has_handler method p.handlers
    then elim error [ none ↦ got_result result | some e ↦ got_error e ]
    else got_error (record {
      code = negsuc 32600;
      message = bytes "method not found: " ++ method;
      payload = [];
    })

-- The message that the peer is to write, so that its id names the request.
abbrev pub reply_of : Bytes → RpcResponse → RpcMessage
reply_of id (got_result result) = record (empty_message id) { result = result }
reply_of id (got_error e) = record (empty_message id) { error = some e }
reply_of id got_closed = empty_message id

-- A side finds its own ids by its prefix, and its peer's by the other.
pub own_prefix : (role : Role) (n : ℕ) → has_prefix (make_id role n) (prefix role ∷ 58 ∷ []) ≡ true
unfolding has_prefix make_id prefix
own_prefix kernel n = refl
own_prefix sidecar n = refl

peer_finds :
    (role role' : Role) (n : ℕ)
    → role' ≢ role
    → has_prefix (make_id role n) (peer_prefix role' ∷ 58 ∷ []) ≡ true
unfolding has_prefix make_id prefix peer_prefix
peer_finds kernel kernel n h = absurd (h refl)
peer_finds kernel sidecar n h = refl
peer_finds sidecar kernel n h = refl
peer_finds sidecar sidecar n h = absurd (h refl)

own_refused :
    (role : Role) (n : ℕ) → has_prefix (make_id role n) (peer_prefix role ∷ 58 ∷ []) ≡ false
unfolding has_prefix make_id prefix peer_prefix
own_refused kernel n = refl
own_refused sidecar n = refl

peer_refused :
    (role role' : Role) (n : ℕ)
    → role' ≢ role
    → has_prefix (make_id role n) (prefix role' ∷ 58 ∷ []) ≡ false
unfolding has_prefix make_id prefix
peer_refused kernel kernel n h = absurd (h refl)
peer_refused kernel sidecar n h = refl
peer_refused sidecar kernel n h = refl
peer_refused sidecar sidecar n h = absurd (h refl)

id_non_empty : (role : Role) (n : ℕ) → (make_id role n == []) ≡ false
unfolding make_id is_bytes
id_non_empty role n = refl

-- Where a message with an id of the first side goes, if it is a request and if it is a response.
routes_request :
    (r : BidirRpc) (role : Role) (n : ℕ) (method params : Bytes) (b : Bool)
    → (method == []) ≡ false
    → has_prefix (make_id role n) (peer_prefix r.role ∷ 58 ∷ []) ≡ b
    → dispatch r (request_of role n method params) ≡ (if b then to_handler true else dropped)
unfolding dispatch
routes_request r role n method params b named h = rw (id_non_empty role n, named, h) refl

pub routes_response :
    (r : BidirRpc) (role : Role) (n : ℕ) (resp : RpcResponse) (b : Bool)
    → has_prefix (make_id role n) (prefix r.role ∷ 58 ∷ []) ≡ b
    → dispatch r (reply_of (make_id role n) resp)
      ≡ (if b then to_found (lookup (make_id role n) r.waiters) else dropped)
unfolding dispatch is_bytes
routes_response r role n (got_result x) b h = rw (id_non_empty role n, h) refl
routes_response r role n (got_error x) b h = rw (id_non_empty role n, h) refl
routes_response r role n got_closed b h = rw (id_non_empty role n, h) refl

writes_reply :
    (p : BidirRpc) (role : Role) (n : ℕ) (method params result : Bytes) (error : Option RpcError)
    → (dispatch_request p (request_of role n method params) true result error).wire
      ≡ p.wire ++ reply_of (make_id role n) (answer_of p method result error) ∷ []
unfolding dispatch_request send_result_response send_error_response
writes_reply p role n method params result none =
    elim (Bool-cases (has_handler method p.handlers)) [ inl e ↦ rw e refl | inr e ↦ rw e refl ]
writes_reply p role n method params result (some x) =
    elim (Bool-cases (has_handler method p.handlers)) [ inl e ↦ rw e refl | inr e ↦ rw e refl ]

-- A request and its way back: the peer takes the request for one that it has to answer, and writes
-- just one message, with the handler's result or error, or that there is no handler. This goes to
-- the waiter that stands under the request's id, and is stale if there is none. Neither side takes
-- an echo: the request on the side that has sent it is dropped, and so is the answer on the other.
pub request_answered :
    (r p : BidirRpc) (n : ℕ) (method params result : Bytes) (error : Option RpcError)
    → p.role ≢ r.role
    → (method == []) ≡ false
    → let request = request_of r.role n method params in
      let reply = reply_of (make_id r.role n) (answer_of p method result error) in
      (dispatch p request ≡ to_handler true)
      × ((dispatch_request p request true result error).wire ≡ p.wire ++ reply ∷ [])
      × (dispatch r reply ≡ to_found (lookup (make_id r.role n) r.waiters))
      × (dispatch r request ≡ dropped)
      × (dispatch p reply ≡ dropped)
request_answered r p n method params result error other named = (
  routes_request p r.role n method params true named (peer_finds r.role p.role n other),
  writes_reply p r.role n method params result error,
  routes_response r r.role n (answer_of p method result error) true (own_prefix r.role n),
  routes_request r r.role n method params false named (own_refused r.role n),
  routes_response p r.role n (answer_of p method result error) false
      (peer_refused r.role p.role n other),
)
