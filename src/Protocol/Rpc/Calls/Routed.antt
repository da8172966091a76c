-- ===== src/Protocol/Rpc/Calls/Routed.antt =====
-- A call is given no response but its own.
use brain.Protocol.Rpc.Calls.Bounds.{AreNamed, IsBounded, Reach-IsBounded}
use brain.Protocol.Rpc.Calls.{
  Stage, CallStep, acquires, times_out, finds_closed, takes_number, registers, makes_cancellable,
  sends, sends_nothing, takes, cancels, sees_closed, leaves, unregisters, releases, System, receive,
  Step, begins, advances, reads, delivers, notifies, answers, fires, closes, Reach, begin, next,
  dispatch_request_writes, cancel_request_fires,
}
use brain.Protocol.Rpc.{
  RpcMessage, Role, RpcResponse, got_closed, BidirRpc, new_bidir_rpc, make_id, next_id,
  register_waiter, clear_waiter, acquire_slot, release_slot, register_inflight_cancel,
  clear_inflight_cancel, send_request, notify, fail_all, all_failed, close, Route, dropped,
  to_handler, to_waiter, stale, dispatch, response_of, deliver,
}
use brain.Prelude.Text.{Bytes, bytes_eq}
use brain.Prelude.Assoc.{lookup, insert, delete}
use brain.Prelude.{
  ℕ, ◌≡◌, refl, sym, ap, ◌∙◌, ◌⊎◌, inl, inr, Option, none, some, List, [], ◌∷◌, ◌++◌, arith, nat_eq,
  string_eq, ◌==◌, Bool-cases, is_some, All,
}
use mathlib.Core.Path.{subst}
use mathlib.Core.List.{append_assoc}
use mathlib.Core.Option.{some-injective}

-- A message among those that have been received.
abbrev pub Received : List RpcMessage → RpcMessage → Type 0
Received received msg =
    (before : List RpcMessage) × (after : List RpcMessage) × (received ≡ before ++ msg ∷ after)

-- What a call with a number may be told: that the session has closed, or what a message says that
-- was received with the call's id.
abbrev pub Came : Role → List RpcMessage → ℕ → RpcResponse → Type 0
Came role received n resp =
    (resp ≡ got_closed)
    ⊎ ((msg : RpcMessage) × Received received msg
        × (msg.id ≡ make_id role n)
        × (resp ≡ response_of msg))

later :
    (role : Role) (received : List RpcMessage) (n : ℕ) {resp : RpcResponse} (msg : RpcMessage)
    → Came role received n resp
    → Came role (received ++ msg ∷ []) n resp
later role received n msg (inl e) = inl e
later role received n msg (inr (m, (before, after, e), id, same)) = inr (
  m,
  (
    before,
    after ++ msg ∷ [],
    ap (λ l. l ++ msg ∷ []) e ∙ append_assoc before (m ∷ after) (msg ∷ []),
  ),
  id,
  same,
)

-- What holds of everything that waits in a channel.
module _ (P : ℕ → RpcResponse → Type 0) where
  abbrev Buffered : List (ℕ × RpcResponse) → Type 0
  Buffered = All (λ c. P c.0 c.1)

  insert-Buffered :
      (n : ℕ) (resp : RpcResponse) (channels : List (ℕ × RpcResponse))
      → P n resp
      → Buffered channels
      → Buffered (insert n resp channels)
  unfolding insert
  insert-Buffered n resp [] c h = (c, tt)
  insert-Buffered n resp ((k, x) ∷ channels) c h = elim (Bool-cases (k == n)) [
    | inl e ↦ rw e (c, h.1)
    | inr e ↦ rw e (h.0, insert-Buffered n resp channels c h.1)
  ]

  delete-Buffered :
      (n : ℕ) (channels : List (ℕ × RpcResponse)) → Buffered channels → Buffered (delete n channels)
  unfolding delete
  delete-Buffered n [] h = tt
  delete-Buffered n ((k, x) ∷ channels) h = elim (Bool-cases (k == n)) [
    | inl e ↦ rw e (delete-Buffered n channels h.1)
    | inr e ↦ rw e (h.0, delete-Buffered n channels h.1)
  ]

  lookup-Buffered :
      (n : ℕ) (channels : List (ℕ × RpcResponse)) {resp : RpcResponse}
      → Buffered channels
      → lookup n channels ≡ some resp
      → P n resp
  unfolding lookup
  lookup-Buffered n [] h e = absurd (cc)
  lookup-Buffered n ((k, x) ∷ channels) h e = elim (Bool-cases (k == n)) [
    | inl q ↦
        let same = some-injective _ _ (sym (rw q refl) ∙ e) in
        subst (P n) same (subst (λ j. P j x) ((nat_eq.beq_iff k n).0 q) h.0)
    | inr q ↦ lookup-Buffered n channels h.1 (sym (rw q refl) ∙ e)
  ]

  fail_all-Buffered :
      (ws : List (Bytes × ℕ)) (channels : List (ℕ × RpcResponse))
      → ((n : ℕ) → P n got_closed)
      → Buffered channels
      → Buffered (fail_all ws channels)
  unfolding fail_all
  fail_all-Buffered [] channels closed h = h
  fail_all-Buffered ((id, n) ∷ ws) channels closed h =
      elim (Bool-cases (is_some (lookup n channels))) [
        | inl e ↦ rw e (fail_all-Buffered ws channels closed h)
        | inr e ↦ rw e (
            fail_all-Buffered ws (insert n got_closed channels) closed
              (insert-Buffered n got_closed channels (closed n) h))
      ]

  deliver-Buffered :
      (r : BidirRpc) (n : ℕ) (resp : RpcResponse)
      → P n resp
      → Buffered r.channels
      → Buffered (deliver r n resp).channels
  unfolding deliver
  deliver-Buffered r n resp c h = elim (Bool-cases (is_some (lookup n r.channels))) [
    | inl e ↦ rw e h
    | inr e ↦ rw e (insert-Buffered n resp r.channels c h)
  ]

  close-Buffered :
      (r : BidirRpc)
      → ((n : ℕ) → P n got_closed)
      → Buffered r.channels
      → Buffered (close r).channels
  unfolding close all_failed
  close-Buffered r closed h = elim (Bool-cases r.closed) [
    | inl e ↦ rw e h
    | inr e ↦ rw e (fail_all-Buffered r.waiters r.channels closed h)
  ]

  CallStep-Buffered :
      {r r' : BidirRpc} {c c' : Stage}
      → CallStep r c r' c'
      → Buffered r.channels
      → Buffered r'.channels
  unfolding acquire_slot release_slot next_id register_waiter clear_waiter register_inflight_cancel
      clear_inflight_cancel send_request
  CallStep-Buffered (acquires lt) h = h
  CallStep-Buffered times_out h = h
  CallStep-Buffered (finds_closed e) h = h
  CallStep-Buffered takes_number h = h
  CallStep-Buffered (registers n) h = h
  CallStep-Buffered (makes_cancellable n) h = h
  CallStep-Buffered (sends n method params) h = h
  CallStep-Buffered (sends_nothing n code) h = h
  CallStep-Buffered {r} (takes n resp e) h = delete-Buffered n r.channels h
  CallStep-Buffered (cancels n) h = h
  CallStep-Buffered (sees_closed n e) h = h
  CallStep-Buffered (leaves n o) h = h
  CallStep-Buffered (unregisters n o) h = h
  CallStep-Buffered (releases o) h = h

  later-Buffered :
      (Q : ℕ → RpcResponse → Type 0) (channels : List (ℕ × RpcResponse))
      → ((n : ℕ) (resp : RpcResponse) → Q n resp → P n resp)
      → All (λ c. Q c.0 c.1) channels
      → Buffered channels
  later-Buffered Q [] wider h = tt
  later-Buffered Q (c ∷ channels) wider h = (wider c.0 c.1 h.0, later-Buffered Q channels wider h.1)

lookup-AreNamed :
    (role : Role) (id : Bytes) (ws : List (Bytes × ℕ)) {n : ℕ}
    → AreNamed role ws
    → lookup id ws ≡ some n
    → id ≡ make_id role n
unfolding lookup
lookup-AreNamed role id [] h e = absurd (cc)
lookup-AreNamed role id ((i, m) ∷ ws) h e = elim (Bool-cases (i == id)) [
  | inl q ↦
      let same = some-injective _ _ (sym (rw q refl) ∙ e) in
      sym ((bytes_eq.beq_iff i id).0 q) ∙ h.0 ∙ ap (make_id role) same
  | inr q ↦ lookup-AreNamed role id ws h.1 (sym (rw q refl) ∙ e)
]

-- The reader holds nothing, or something that came.
abbrev Held : Role → List RpcMessage → Option (ℕ × RpcResponse) → Type 0
Held role received none = Unit
Held role received (some (n, resp)) = Came role received n resp

later-Held :
    (role : Role) (received : List RpcMessage) (o : Option (ℕ × RpcResponse)) (msg : RpcMessage)
    → Held role received o
    → Held role (received ++ msg ∷ []) o
later-Held role received none msg h = tt
later-Held role received (some (n, resp)) msg h = later role received n msg h

record IsRouted (role : Role) (s : System) : Type 0 where
  in_channels : Buffered (Came role s.received) s.rpc.channels
  in_reader : Held role s.received s.reader

module _ (role : Role) where
  dispatch-waiter :
      (r : BidirRpc) (msg : RpcMessage) {n : ℕ}
      → AreNamed role r.waiters
      → dispatch r msg ≡ to_waiter n
      → msg.id ≡ make_id role n
  unfolding dispatch
  dispatch-waiter r msg {n} named e = lookup-AreNamed role msg.id r.waiters named (ground arith)

  receive-IsRouted :
      (s : System) (msg : RpcMessage) (way : Route)
      → ((n : ℕ) → way ≡ to_waiter n → msg.id ≡ make_id role n)
      → IsRouted role s
      → IsRouted role (receive s msg way)
  receive-IsRouted s msg way own h =
      let kept =
        later-Buffered (Came role (s.received ++ msg ∷ [])) (Came role s.received) s.rpc.channels
          (λ n resp. later role s.received n msg) h.in_channels in
      let held = later-Held role s.received s.reader msg h.in_reader in go way own kept held
    where
      go :
          (way : Route)
          → ((n : ℕ) → way ≡ to_waiter n → msg.id ≡ make_id role n)
          → Buffered (Came role (s.received ++ msg ∷ [])) s.rpc.channels
          → Held role (s.received ++ msg ∷ []) s.reader
          → IsRouted role (receive s msg way)
      go dropped own kept held = record { in_channels = kept; in_reader = held }
      go (to_handler expect) own kept held = record { in_channels = kept; in_reader = held }
      go stale own kept held = record { in_channels = kept; in_reader = held }
      go (to_waiter n) own kept held = record {
        in_channels = kept;
        in_reader = inr (msg, (s.received, [], refl), own n refl, refl);
      }

  Step-IsRouted :
      {s t : System} → Step s t → IsBounded role s.rpc s.calls → IsRouted role s → IsRouted role t
  unfolding notify send_request
  Step-IsRouted begins b h = record { in_channels = h.in_channels; in_reader = h.in_reader }
  Step-IsRouted {s} (advances before after e st) b h = record {
    in_channels = CallStep-Buffered (Came role s.received) st h.in_channels;
    in_reader = h.in_reader;
  }
  Step-IsRouted {s} (reads msg free v) b h =
      receive-IsRouted s msg (dispatch s.rpc msg) (λ n e. dispatch-waiter s.rpc msg b.are_named e) h
  Step-IsRouted {s} (delivers n resp e) b h =
      let held : Came role s.received n resp = subst (Held role s.received) e h.in_reader in
      record {
        in_channels = deliver-Buffered (Came role s.received) s.rpc n resp held h.in_channels;
        in_reader = tt;
      }
  Step-IsRouted (notifies method params) b h = record {
    in_channels = h.in_channels;
    in_reader = h.in_reader;
  }
  Step-IsRouted {s} (answers msg expect result error) b h =
      let (w, e) = dispatch_request_writes s.rpc msg expect result error in
      rw e (record { in_channels = h.in_channels; in_reader = h.in_reader })
  Step-IsRouted {s} (fires id) b h =
      let (f, e) = cancel_request_fires s.rpc id in
      rw e (record { in_channels = h.in_channels; in_reader = h.in_reader })
  Step-IsRouted {s} closes b h = record {
    in_channels = close-Buffered (Came role s.received) s.rpc (λ n. inl refl) h.in_channels;
    in_reader = h.in_reader;
  }

  Reach-IsRouted : {s : System} → Reach role s → IsRouted role s
  unfolding new_bidir_rpc
  Reach-IsRouted begin = record { in_channels = tt; in_reader = tt }
  Reach-IsRouted (next reach st) = Step-IsRouted st (Reach-IsBounded reach) (Reach-IsRouted reach)

-- However calls, responses, cancellations and Close interleave: what a call takes from its channel
-- is the result or the error of a message that was received with the call's own id, or that the
-- session has been closed.
pub takes_own :
    {role : Role} {s : System} (n : ℕ) (resp : RpcResponse)
    → Reach role s
    → lookup n s.rpc.channels ≡ some resp
    → Came role s.received n resp
takes_own {role} {s} n resp reach e =
    lookup-Buffered (Came role s.received) n s.rpc.channels (Reach-IsRouted role reach).in_channels
      e
