-- ===== src/Server/Turn.antt =====
-- Rounds of `main_job` (src/server/kvstore.c) on an RC or UC connection.
use rdma_kv_store.Base.{
  ℕ, zero, suc, ◌<◌, ◌≡◌, refl, inl, inr, false, List, [], ◌∷◌, none, some, arith, length,
  get_elem?, set, length-set, pos,
}
use rdma_kv_store.Machine.{done}
use rdma_kv_store.Common.{
  Method, unk, set as set_method, get, del, dump, rst, ping, exit, setopt, Request, Response,
  zero_response,
}
use rdma_kv_store.Hash.State.{Store}
use rdma_kv_store.Server.{request_backlog, message, Env, Session}
use rdma_kv_store.Server.Transport.{
  advance, is_connection_closed, send_response_to_client, ready_for_next_request,
}
use rdma_kv_store.Server.Dispatch.{
  request_dispatcher, dispatch_method, dispatch_received, recv_request,
}
use rdma_kv_store.Server.Worker.{next_turn, ready_unless_unk, handle, answer_request, turn}
use rdma_kv_store.Server.Ring.{
  IsConnected, InStep, remember-connected, received_buffers, received, prepare-prepared,
  receive_header-received, current-received, advance-InStep,
}

-- A method that only the loop answers.
abbrev pub IsStored : Method → Type 0
IsStored set_method = Unit
IsStored get = Unit
IsStored del = Unit
IsStored dump = Unit
IsStored rst = Unit
IsStored _ = ⊥

-- No buffer holds a request to close the connection.
abbrev pub AllOpen : List Request → Type 0
AllOpen [] = Unit
AllOpen (r ∷ rs) = (r.connection_close ≡ false) × AllOpen rs

pub AllOpen-set :
    (rs : List Request) (i : ℕ) (r : Request)
    → AllOpen rs
    → r.connection_close ≡ false
    → AllOpen (set rs i r)
AllOpen-set [] i r o h = tt
AllOpen-set (x ∷ rs) zero r o h = (h, o.1)
AllOpen-set (x ∷ rs) (suc i) r o h = (o.0, AllOpen-set rs i r o.1 h)

pub first_open :
    (rs : List Request)
    → 0 < length rs
    → AllOpen rs
    → (r : Request) × (get_elem? rs 0 ≡ some r) × (r.connection_close ≡ false)
first_open [] h o = absurd (omega arith)
first_open (r ∷ rs) h o = (r, refl, o.0)

pub send_done :
    (env : Env) (u : Session)
    → IsConnected u.type
    → env.send_error u.moment ≡ none
    → send_response_to_client env u
      ≡ done (pos 1) (record u { sent = (u.client_nr, u.response) ∷ u.sent; moment = suc u.moment })
unfolding send_response_to_client
send_done env u (inl t) sent = rw (t, sent) refl
send_done env u (inr t) sent = rw (t, sent) refl

pub stays_open :
    (u : Session)
    → IsConnected u.type
    → 0 < length u.own.slots
    → AllOpen u.own.slots
    → is_connection_closed u ≡ done false u
unfolding is_connection_closed
stays_open u (inl t) wide o =
    let (first, at_first, kept) = first_open u.own.slots wide o in rw (t, at_first, kept) refl
stays_open u (inr t) wide o =
    let (first, at_first, kept) = first_open u.own.slots wide o in rw (t, at_first, kept) refl

-- The dispatcher does nothing for these methods.
pub dispatch_nothing :
    (env : Env) (m : Method) (r : Request) (u : Session)
    → IsStored m
    → dispatch_method env m r u ≡ done tt u
unfolding dispatch_method
dispatch_nothing env set_method r u h = refl
dispatch_nothing env get r u h = refl
dispatch_nothing env del r u h = refl
dispatch_nothing env dump r u h = refl
dispatch_nothing env rst r u h = refl
dispatch_nothing env unk r u h = absurd h
dispatch_nothing env ping r u h = absurd h
dispatch_nothing env exit r u h = absurd h
dispatch_nothing env setopt r u h = absurd h

-- After them, the ring is made ready.
pub ready_stored :
    (env : Env) (m : Method) (u : Session)
    → IsStored m
    → ready_unless_unk env m u ≡ ready_for_next_request env u.type u
unfolding ready_unless_unk
ready_stored env set_method u h = refl
ready_stored env get u h = refl
ready_stored env del u h = refl
ready_stored env dump u h = refl
ready_stored env rst u h = refl
ready_stored env unk u h = absurd h
ready_stored env ping u h = absurd h
ready_stored env exit u h = absurd h
ready_stored env setopt u h = absurd h

-- The session after a request `r` was answered with `response`.
abbrev pub answered : Request → Response → Store → Session → Session
answered r response st s = record s {
  own = advance request_backlog (received_buffers r s.own);
  response = response;
  store = st;
  sent = (s.client_nr, response) ∷ s.sent;
  moment = suc (suc (suc (suc s.moment)));
}

-- What a worker thread relies on between rounds.
pub record Serving (s : Session) : Type 0 where
  pub connected : IsConnected s.type
  pub in_step : InStep s.own
  pub opened : AllOpen s.own.slots

module _ (fuel : ℕ) (env : Env) (s : Session) (r : Request) (st : Store) (response : Response)
    (serving : Serving s) (stored : IsStored r.method) where
  ready_connected :
      ready_for_next_request env s.type (received r s)
      ≡ done tt (record (received r s) { own = advance request_backlog (received_buffers r s.own) })
  unfolding ready_for_next_request
  ready_connected = go serving.connected
    where
      go :
          IsConnected s.type
          → ready_for_next_request env s.type (received r s)
            ≡ done tt
                (record (received r s) { own = advance request_backlog (received_buffers r s.own) })
      go (inl t) = rw t refl
      go (inr t) = rw t refl

  dispatch_received-done : dispatch_received env (received r s) ≡ done r (received r s)
  unfolding dispatch_received request_dispatcher
  dispatch_received-done =
      let current = current-received env s r serving.connected serving.in_step in
      let same = remember-connected env s.type r (received r s) serving.connected in
      rw (current, same, current, dispatch_nothing env r.method r (received r s) stored, current)
        refl

  -- A round of the loop on an RC or UC connection in step, in which a SET, GET, DEL, DUMP or RST
  -- request arrives that does not close the connection, with a post and a send that succeed and a
  -- handler that returns, ends with the handler's response sent, once, with the handler's table,
  -- and ready for the next round.
  pub turn-answered :
      r.connection_close ≡ false
      → env.post_recv s.moment ≡ pos 0
      → env.arrival (suc s.moment) ≡ message r
      → handle fuel env r.method (suc (suc s.moment)) r zero_response s.store ≡ done response st
      → env.send_error (suc (suc (suc s.moment))) ≡ none
      → turn fuel env s ≡ done next_turn (answered r response st s)
  unfolding turn recv_request answer_request
  turn-answered h post arrived handled sent =
      rw
        (
          prepare-prepared env s r serving.connected post,
          receive_header-received env s r serving.connected serving.in_step arrived,
          dispatch_received-done,
          ready_stored env r.method (received r s) stored,
          ready_connected,
          handled,
          send_done env before_send serving.connected sent,
          stays_open (answered r response st s) serving.connected wide
              (AllOpen-set s.own.slots s.own.request_count r serving.opened h),
        )
        refl
    where
      wide : 0 < length (set s.own.slots s.own.request_count r)
      wide = omega (arith, length-set s.own.slots s.own.request_count r, serving.in_step.width)

      before_send : Session
      before_send = record s {
        own = advance request_backlog (received_buffers r s.own);
        response = response;
        store = st;
        moment = suc (suc (suc s.moment));
      }

  pub answered-Serving : r.connection_close ≡ false → Serving (answered r response st s)
  answered-Serving h = record {
    connected = serving.connected;
    in_step = advance-InStep s.own r serving.in_step;
    opened = AllOpen-set s.own.slots s.own.request_count r serving.opened h;
  }
