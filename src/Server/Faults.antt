-- ===== src/Server/Faults.antt =====
-- Rounds of `main_job` (src/server/kvstore.c) in which the dispatcher and the loop both answer.
use rdma_kv_store.Base.{
  get_elem?-set_self, ℕ, suc, ◌<◌, ◌≡◌, ◌⊎◌, refl, inl, inr, false, [], ◌∷◌, none, arith, length,
  set, length-set, pos,
}
use rdma_kv_store.Machine.{done, memcpy}
use rdma_kv_store.Common.{
  Method, unk, ping, ResponseCode, ok, parsing_error, Request, Response, zero_response,
}
use rdma_kv_store.Hash.State.{Store}
use rdma_kv_store.Server.{request_backlog, message, Env, Buffers, Session}
use rdma_kv_store.Server.Transport.{advance, get_current_request, ready_for_next_request}
use rdma_kv_store.Server.Dispatch.{
  ping_request, send_response, payload_response, request_dispatcher, dispatch_method,
  dispatch_received, recv_request,
}
use rdma_kv_store.Server.Worker.{next_turn, ready_unless_unk, handle, answer_request, turn}
use rdma_kv_store.Server.Ring.{
  IsConnected, received_buffers, received, prepare-prepared, receive_header-received,
  current-received, current_at, remember-connected,
}
use rdma_kv_store.Server.Turn.{Serving, AllOpen, AllOpen-set, send_done, stays_open}

abbrev pub coded : ResponseCode → Response
coded code = record zero_response { code = code }

-- The session after a response without payload.
abbrev pub replied : ResponseCode → Session → Session
replied code u = record u {
  response = coded code;
  sent = (u.client_nr, coded code) ∷ u.sent;
  moment = suc u.moment;
}

send_response-replied :
    (env : Env) (code : ResponseCode) (u : Session)
    → IsConnected u.type
    → env.send_error u.moment ≡ none
    → send_response env code [] u ≡ done (pos 0) (replied code u)
unfolding send_response payload_response memcpy
send_response-replied env code u c sent =
    rw (send_done env (record u { response = coded code }) c sent) refl

module _ (env : Env) (m : Method) (r : Request) (u : Session) (c : IsConnected u.type) where
  dispatch_method-ping :
      m ≡ ping → env.send_error u.moment ≡ none → dispatch_method env m r u ≡ done tt (replied ok u)
  unfolding dispatch_method ping_request
  dispatch_method-ping e sent = rw (e, send_response-replied env ok u c sent) refl

  dispatch_method-unk :
      m ≡ unk
      → env.send_error u.moment ≡ none
      → dispatch_method env m r u ≡ done tt (replied parsing_error u)
  unfolding dispatch_method
  dispatch_method-unk e sent = rw (e, send_response-replied env parsing_error u c sent) refl

  ready_unless_unk-unk : m ≡ unk → ready_unless_unk env m u ≡ done tt u
  unfolding ready_unless_unk
  ready_unless_unk-unk e = rw e refl

  ready_unless_unk-ping :
      m ≡ ping
      → ready_unless_unk env m u ≡ done tt (record u { own = advance request_backlog u.own })
  unfolding ready_unless_unk ready_for_next_request
  ready_unless_unk-ping e = elim c [ inl t ↦ rw (e, t) refl | inr t ↦ rw (e, t) refl ]

  handle-none :
      (fuel moment : ℕ) (response : Response) (st : Store)
      → (m ≡ ping) ⊎ (m ≡ unk)
      → handle fuel env m moment r response st ≡ done response st
  unfolding handle
  handle-none fuel moment response st (inl e) = rw e refl
  handle-none fuel moment response st (inr e) = rw e refl

-- A request of a connection that is received, and that the dispatcher answers itself.
module _ (env : Env) (s : Session) (r : Request) (serving : Serving s) where
  dispatched :
      (code : ResponseCode)
      → dispatch_method env r.method r (received r s) ≡ done tt (replied code (received r s))
      → dispatch_received env (received r s) ≡ done r (replied code (received r s))
  unfolding dispatch_received request_dispatcher
  dispatched code dispatches =
      let current = current-received env s r serving.connected serving.in_step in
      let same = remember-connected env s.type r (received r s) serving.connected in
      rw (current, same, current, dispatches, still) refl
    where
      still :
          get_current_request (replied code (received r s)) ≡ done r (replied code (received r s))
      still =
          let inside : s.own.request_count < length s.own.slots =
            omega (arith, serving.in_step.inside, serving.in_step.width) in
          current_at (replied code (received r s)) r serving.connected
            (get_elem?-set_self s.own.slots s.own.request_count r inside)

-- The session after a request that was answered twice: by the dispatcher with `code`, and by the
-- loop with OK. The ring advances to `own`.
abbrev pub twice : Buffers → ResponseCode → Session → Session
twice own code s = record s {
  own = own;
  response = zero_response;
  sent = (s.client_nr, zero_response) ∷ (s.client_nr, coded code) ∷ s.sent;
  moment = suc (suc (suc (suc (suc s.moment))));
}

module _ (fuel : ℕ) (env : Env) (s : Session) (r : Request) (serving : Serving s)
    (stays : r.connection_close ≡ false) (post : env.post_recv s.moment ≡ pos 0)
    (arrived : env.arrival (suc s.moment) ≡ message r)
    (sent : env.send_error (suc (suc s.moment)) ≡ none)
    (sent_again : env.send_error (suc (suc (suc (suc s.moment)))) ≡ none) where
  wide : 0 < length (set s.own.slots s.own.request_count r)
  wide = omega (arith, length-set s.own.slots s.own.request_count r, serving.in_step.width)

  still_open : AllOpen (set s.own.slots s.own.request_count r)
  still_open = AllOpen-set s.own.slots s.own.request_count r serving.opened stays

  abbrev before_again : Buffers → ResponseCode → Session
  before_again own code = record s {
    own = own;
    response = zero_response;
    sent = (s.client_nr, coded code) ∷ s.sent;
    moment = suc (suc (suc (suc s.moment)));
  }

  -- A PING that does not close the connection, on an RC or UC connection in step whose posts and
  -- sends succeed, is answered twice with OK, and the ring advances.
  pub turn-ping :
      r.method ≡ ping
      → turn fuel env s
        ≡ done next_turn (twice (advance request_backlog (received_buffers r s.own)) ok s)
  unfolding turn recv_request answer_request
  turn-ping m =
      let own = advance request_backlog (received_buffers r s.own) in
      let u = replied ok (received r s) in
      rw
        (
          prepare-prepared env s r serving.connected post,
          receive_header-received env s r serving.connected serving.in_step arrived,
          dispatched env s r serving ok
              (dispatch_method-ping env r.method r (received r s) serving.connected m sent),
          ready_unless_unk-ping env r.method r u serving.connected m,
          handle-none env r.method r u serving.connected fuel (suc (suc (suc s.moment)))
              zero_response s.store (inl m),
          send_done env (before_again own ok) serving.connected sent_again,
          stays_open (twice own ok s) serving.connected wide still_open,
        )
        refl

  -- An UNK request that does not close the connection, on an RC or UC connection in step whose
  -- posts and sends succeed, is answered twice, with PARSING_ERROR and with OK, and the ring does
  -- not advance.
  pub turn-unk :
      r.method ≡ unk
      → turn fuel env s ≡ done next_turn (twice (received_buffers r s.own) parsing_error s)
  unfolding turn recv_request answer_request
  turn-unk m =
      let own = received_buffers r s.own in
      let u = replied parsing_error (received r s) in
      rw
        (
          prepare-prepared env s r serving.connected post,
          receive_header-received env s r serving.connected serving.in_step arrived,
          dispatched env s r serving parsing_error
              (dispatch_method-unk env r.method r (received r s) serving.connected m sent),
          ready_unless_unk-unk env r.method r u serving.connected m,
          handle-none env r.method r u serving.connected fuel (suc (suc (suc s.moment)))
              zero_response s.store (inr m),
          send_done env (before_again own parsing_error) serving.connected sent_again,
          stays_open (twice own parsing_error s) serving.connected wide still_open,
        )
        refl
