-- ===== src/Server/Held.antt =====
-- The lock of the UD server after a request that is not recognised: `ud_receive_header` of
-- src/server/ud_server_utils.c takes it, and `main_job` of src/server/kvstore.c keeps it.
use rdma_kv_store.Base.{
  ℕ, suc, ◌<◌, ◌≡◌, refl, true, false, List, ◌∷◌, none, some, length, get_elem?, get_elem?-set_self,
  set, pos,
}
use rdma_kv_store.Machine.{done, blocked, memcpy}
use rdma_kv_store.Common.{ConnectionType, Method, ud, unk, parsing_error, Request, zero_response}
use rdma_kv_store.Server.{Route, Arrival, message, failed, Env, Session}
use rdma_kv_store.Server.Transport.{
  land_in, get_current_request, prepare_for_next_request, receive_header, send_response_to_client,
  is_connection_closed,
}
use rdma_kv_store.Server.Dispatch.{
  remember, send_response, payload_response, dispatch_method, request_dispatcher, dispatch_received,
  recv_request,
}
use rdma_kv_store.Server.Worker.{
  next_turn, job_loop, ready_unless_unk, handle, answer_request, turn,
}
use rdma_kv_store.Server.Faults.{coded}

-- The session in which `r` has landed in the buffer `i`, and the lock is taken.
abbrev pub landed : Request → ℕ → List ℕ → Session → Session
landed r i rest s = record s {
  shared = land_in r i rest s.shared;
  lock = true;
  moment = suc s.moment;
}

pub receive_header-landed :
    (env : Env) (s : Session) (r : Request) (i : ℕ) (rest : List ℕ)
    → s.type ≡ ud
    → s.lock ≡ false
    → s.shared.queue ≡ i ∷ rest
    → env.arrival s.moment ≡ message r
    → receive_header env s ≡ done (pos 1) (landed r i rest s)
unfolding receive_header
receive_header-landed env s r i rest t unheld q arrived = rw (t, arrived, q, unheld) refl

-- With the lock held, a receive on a UD connection does not return.
receive_header-blocked :
    (env : Env) (s : Session) (i : ℕ) (rest : List ℕ) (a : Arrival)
    → s.type ≡ ud
    → s.lock ≡ true
    → s.shared.queue ≡ i ∷ rest
    → env.arrival s.moment ≡ a
    → receive_header env s ≡ blocked
unfolding receive_header
receive_header-blocked env s i rest (message r) t held q arrived = rw (t, arrived, q, held) refl
receive_header-blocked env s i rest (failed e) t held q arrived = rw (t, arrived, held) refl

pub current_shared :
    (u : Session) (r : Request)
    → u.type ≡ ud
    → get_elem? u.shared.slots u.shared.request_count ≡ some r
    → get_current_request u ≡ done r u
unfolding get_current_request
current_shared u r t e = rw (t, e) refl

-- What the two arrays have under a number.
pub record IsKnown (ah remote_qpns : List ℕ) (nr : ℕ) (to : Route) : Type 0 where
  pub handle_at : get_elem? ah nr ≡ some to.handle
  pub qpn_at : get_elem? remote_qpns nr ≡ some to.qpn

pub send_shared :
    (env : Env) (u : Session) (to : Route)
    → u.type ≡ ud
    → IsKnown u.ah u.remote_qpns u.client_handling to
    → env.send_error u.moment ≡ none
    → send_response_to_client env u
      ≡ done
          (pos 1)
          (record u { datagrams = (to, u.response) ∷ u.datagrams; moment = suc u.moment })
unfolding send_response_to_client
send_shared env u to t k sent = rw (t, k.handle_at, k.qpn_at, sent) refl

dispatch_unk-shared :
    (env : Env) (m : Method) (r : Request) (u : Session) (to : Route)
    → m ≡ unk
    → u.type ≡ ud
    → IsKnown u.ah u.remote_qpns u.client_handling to
    → env.send_error u.moment ≡ none
    → dispatch_method env m r u
      ≡ done tt (record u {
        response = coded parsing_error;
        datagrams = (to, coded parsing_error) ∷ u.datagrams;
        moment = suc u.moment;
      })
unfolding dispatch_method send_response payload_response memcpy
dispatch_unk-shared env m r u to e t k sent =
    rw (e, send_shared env (record u { response = coded parsing_error }) to t k sent) refl

prepare-shared :
    (env : Env) (k : ConnectionType)
    → k ≡ ud
    → (u : Session) → prepare_for_next_request env k u ≡ done (pos 0) u
unfolding prepare_for_next_request
prepare-shared env k e u = rw e refl

module _ (fuel : ℕ) (env : Env) (s : Session) (r first : Request) (i j : ℕ) (rest : List ℕ)
    (t : s.type ≡ ud) (unheld : s.lock ≡ false) (q : s.shared.queue ≡ i ∷ j ∷ rest)
    (front : s.shared.request_count ≡ i) (inside : i < length s.shared.slots)
    (at_first : get_elem? (set s.shared.slots i r) 0 ≡ some first) (m : r.method ≡ unk) (to : Route)
    (known : IsKnown s.ah s.remote_qpns r.client_id to) (arrived : env.arrival s.moment ≡ message r)
    (sent : env.send_error (suc s.moment) ≡ none)
    (sent_again : env.send_error (suc (suc (suc s.moment))) ≡ none) where
  -- The session after the dispatcher's answer.
  answered_unk : Session
  answered_unk = record s {
    shared = land_in r i (j ∷ rest) s.shared;
    lock = true;
    client_handling = r.client_id;
    response = coded parsing_error;
    datagrams = (to, coded parsing_error) ∷ s.datagrams;
    moment = suc (suc s.moment);
  }

  received_unk : recv_request env s ≡ done (some r) answered_unk
  unfolding recv_request dispatch_received request_dispatcher answered_unk
  received_unk =
      let u = landed r i (j ∷ rest) s in
      let v : Session = record u { client_handling = r.client_id } in
      let here : get_elem? (set s.shared.slots i r) s.shared.request_count ≡ some r =
        rw front (get_elem?-set_self s.shared.slots i r inside) in
      rw
        (
          receive_header-landed env s r i (j ∷ rest) t unheld q arrived,
          current_shared u r t here,
          remembered,
          current_shared v r t here,
          dispatch_unk-shared env r.method r v to m t known sent,
          current_shared answered_unk r t here,
        )
        refl
    where
      remembered :
          remember env s.type r (landed r i (j ∷ rest) s)
          ≡ record (landed r i (j ∷ rest) s) { client_handling = r.client_id }
      remembered = rw t refl

  closing_session : Session
  closing_session = record s {
    shared = land_in r i (j ∷ rest) s.shared;
    lock = true;
    client_handling = r.client_id;
    response = zero_response;
    datagrams = (to, zero_response) ∷ (to, coded parsing_error) ∷ s.datagrams;
    moment = suc (suc (suc (suc s.moment)));
  }

  -- The first round goes through.
  first_turn : first.connection_close ≡ false → turn fuel env s ≡ done next_turn closing_session
  unfolding turn answer_request answered_unk closing_session prepare_for_next_request
      ready_unless_unk handle is_connection_closed recv_request
  first_turn stays =
      let before : Session = record answered_unk {
        response = zero_response;
        moment = suc (suc (suc s.moment));
      } in
      rw
        (
          prepare-shared env s.type t s,
          received_unk,
          ready-unk r.method m answered_unk,
          handle-unk r.method m,
          send_shared env before to t known sent_again,
          closed,
          stays,
        )
        refl
    where
      ready-unk : (k : Method) → k ≡ unk → (u : Session) → ready_unless_unk env k u ≡ done tt u
      ready-unk k e u = rw e refl

      handle-unk :
          (k : Method)
          → k ≡ unk
          → handle fuel env k (suc (suc s.moment)) r zero_response s.store
            ≡ done zero_response s.store
      handle-unk k e = rw e refl

      closed : is_connection_closed closing_session ≡ done first.connection_close closing_session
      closed = rw (t, at_first) refl

  -- Every round after it waits.
  held_turn : (env' : Env) → turn fuel env' closing_session ≡ blocked
  unfolding turn closing_session recv_request
  held_turn env' =
      let c = closing_session in
      rw
        (
          prepare-shared env' s.type t c,
          receive_header-blocked env' c j rest (env'.arrival c.moment) t refl refl refl,
        )
        refl

  -- On a UD connection, where the lock is free, the current buffer is the first in the receive
  -- queue with another behind it, the number of the client has an entry in both arrays of routes,
  -- sends succeed, and the first buffer does not close the connection, a round with an UNK request
  -- goes through, answers it with PARSING_ERROR and with OK, and leaves the lock held. The next
  -- round waits for the lock for ever, whatever arrives, and so does the loop.
  pub turn-blocked :
      first.connection_close ≡ false
      → (s' : Session) × (turn fuel env s ≡ done next_turn s')
        × (s'.lock ≡ true)
        × (s'.datagrams ≡ (to, zero_response) ∷ (to, coded parsing_error) ∷ s.datagrams)
        × ((env' : Env) → turn fuel env' s' ≡ blocked)
        × ((rounds : ℕ) → job_loop fuel env (suc (suc rounds)) s ≡ blocked)
  unfolding job_loop
  turn-blocked stays = (
    closing_session,
    first_turn stays,
    (unfold closing_session in refl),
    (unfold closing_session in refl),
    held_turn,
    λ rounds. rw (first_turn stays, held_turn env) refl,
  )
