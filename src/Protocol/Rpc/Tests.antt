-- ===== src/Protocol/Rpc/Tests.antt =====
-- A kernel's call of a sidecar, one step after another.
use brain.Protocol.Rpc.Calls.Distinct.{ids_distinct}
use brain.Protocol.Rpc.Calls.Open.{answer_finds_call}
use brain.Prelude.Text.{Bytes, is_bytes, bytes_eq, bytes}
use brain.Protocol.Rpc.{
  RpcMessage, kernel, sidecar, got_result, BidirRpc, window, new_bidir_rpc, make_id, next_id,
  register_waiter, acquire_slot, register_inflight_cancel, empty_message, send_request, to_handler,
  to_waiter, dispatch, deliver,
}
use brain.Protocol.Rpc.Calls.{
  numbered, registered, sent, acquires, takes_number, registers, makes_cancellable, sends, System,
  begins, advances, reads, delivers, Reach, begin, next,
}
use brain.Protocol.Rpc.Calls.Routed.{Came, takes_own}
use brain.Protocol.Rpc.Calls.Bounds.{in_flight_bound}
use brain.Protocol.Rpc.Peers.{request_of, reply_of, request_answered}
use brain.Prelude.Assoc.{lookup}
use brain.Prelude.{◌≤◌, ◌≡◌, refl, ◌≢◌, true, none, [], ◌∷◌, arith, nat_eq, string_eq}

abbrev ping : Bytes
unfolding bytes
ping = bytes "ping"

abbrev the_answer : RpcMessage
unfolding make_id
the_answer = record (empty_message (make_id kernel 1)) { result = ping }

abbrev registered_rpc : BidirRpc
unfolding register_waiter next_id acquire_slot new_bidir_rpc
registered_rpc = register_waiter (next_id (acquire_slot (new_bidir_rpc kernel))).0 1

registered-Reach :
    Reach kernel
      (record { rpc = registered_rpc; calls = registered 1 ∷ []; reader = none; received = [] })
unfolding register_waiter next_id acquire_slot new_bidir_rpc window registered_rpc
registered-Reach =
    next
      (next (next (next begin begins) (advances [] [] refl (acquires (omega arith))))
        (advances [] [] refl takes_number))
      (advances [] [] refl (registers 1))

in_flight_bound_example : registered_rpc.in_flight ≤ window kernel
in_flight_bound_example = (in_flight_bound registered-Reach).1

abbrev answered_system : System
unfolding deliver registered_rpc
answered_system = record {
  rpc = deliver registered_rpc 1 (got_result ping);
  calls = registered 1 ∷ [];
  reader = none;
  received = the_answer ∷ [];
}

answered-Reach : Reach kernel answered_system
unfolding deliver dispatch the_answer is_bytes registered_rpc answered_system
answered-Reach =
    next (next registered-Reach (reads the_answer refl refl)) (delivers 1 (got_result ping) refl)

takes_own_example : Came kernel (the_answer ∷ []) 1 (got_result ping)
unfolding answered_system
takes_own_example =
    takes_own 1 (got_result ping) answered-Reach
      (unfold registered_rpc answered_system deliver lookup in refl)

abbrev a_sidecar : BidirRpc
unfolding new_bidir_rpc
a_sidecar = record (new_bidir_rpc sidecar) { handlers = ping ∷ [] }

sidecar≢kernel : sidecar ≢ kernel
sidecar≢kernel e = absurd (cc)

request_answered_example : dispatch a_sidecar (request_of kernel 1 ping []) ≡ to_handler true
unfolding a_sidecar registered_rpc is_bytes ping
request_answered_example =
    (request_answered registered_rpc a_sidecar 1 ping [] ping none sidecar≢kernel refl).0

abbrev two_calls : System
unfolding register_waiter next_id acquire_slot new_bidir_rpc registered_rpc
two_calls = record {
  rpc = (next_id (acquire_slot registered_rpc)).0;
  calls = registered 1 ∷ numbered 2 ∷ [];
  reader = none;
  received = [];
}

two_calls-Reach : Reach kernel two_calls
unfolding register_waiter next_id acquire_slot new_bidir_rpc window registered_rpc two_calls
two_calls-Reach =
    next
      (next (next registered-Reach begins)
        (advances (registered 1 ∷ []) [] refl (acquires (omega arith))))
      (advances (registered 1 ∷ []) [] refl takes_number)

ids_distinct_example : make_id kernel 1 ≢ make_id kernel 2
ids_distinct_example =
    ids_distinct [] [] [] (registered 1) (numbered 2) 1 2 two_calls-Reach
      (unfold two_calls registered_rpc next_id acquire_slot in (omega arith))
      (unfold two_calls in refl) refl refl

abbrev sent_system : System
unfolding register_inflight_cancel send_request registered_rpc ping
sent_system = record {
  rpc = send_request (register_inflight_cancel registered_rpc 1) (make_id kernel 1) ping [];
  calls = sent 1 ∷ [];
  reader = none;
  received = [];
}

sent-Reach : Reach kernel sent_system
unfolding register_inflight_cancel send_request registered_rpc sent_system register_waiter next_id
    acquire_slot new_bidir_rpc
sent-Reach =
    next (next registered-Reach (advances [] [] refl (makes_cancellable 1)))
      (advances [] [] refl (sends 1 ping []))

answer_finds_call_example :
    dispatch sent_system.rpc (reply_of (make_id kernel 1) (got_result ping)) ≡ to_waiter 1
answer_finds_call_example =
    (answer_finds_call [] [] 1 (got_result ping) sent-Reach
      (unfold sent_system registered_rpc send_request register_inflight_cancel register_waiter
          next_id acquire_slot new_bidir_rpc in
        refl)
      (unfold sent_system registered_rpc send_request register_inflight_cancel register_waiter
          next_id acquire_slot new_bidir_rpc in
        (omega arith))
      (unfold sent_system in refl)).0
