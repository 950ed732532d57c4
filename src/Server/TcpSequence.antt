-- ===== src/Server/TcpSequence.antt =====
-- Requests one after another on a TCP connection, in the loop of `main_job` (src/server/kvstore.c).
use rdma_kv_store.Base.{
  ℕ, suc, ◌+◌, ◌<◌, ◌≡◌, refl, sym, ap, ◌∙◌, false, List, [], ◌∷◌, none, arith, length,
  get_elem?-set_self, set, length-set, pos,
}
use rdma_kv_store.Machine.{done}
use rdma_kv_store.Common.{tcp, Request, Response, zero_response}
use rdma_kv_store.Hash.State.{Store}
use rdma_kv_store.Server.{request_backlog, message, Env, Buffers, Session}
use rdma_kv_store.Server.Transport.{
  advance, get_current_request, is_connection_closed, prepare_for_next_request, receive_header,
  ready_for_next_request, send_response_to_client,
}
use rdma_kv_store.Server.Dispatch.{request_dispatcher, dispatch_received, recv_request, remember}
use rdma_kv_store.Server.Worker.{next_turn, handle, answer_request, turn, job_loop}
use rdma_kv_store.Server.Turn.{
  IsStored, AllOpen, AllOpen-set, first_open, dispatch_nothing, ready_stored,
}
use rdma_kv_store.Server.Sequence.{log_all}

-- What a worker thread with a TCP client relies on between rounds.
pub record TcpServing (s : Session) : Type 0 where
  pub is_tcp : s.type ≡ tcp
  pub width : length s.own.slots ≡ request_backlog
  pub inside : s.own.request_count < request_backlog
  pub opened : AllOpen s.own.slots

-- The buffers after a request was read into the current one.
abbrev read_into : Request → Buffers → Buffers
read_into r b = record b { slots = set b.slots b.request_count r }

abbrev read_session : Request → Session → Session
read_session r s = record s { own = read_into r s.own; moment = suc s.moment }

-- The session after a request `r` was answered with `response`.
abbrev answered_tcp : Request → Response → Store → Session → Session
answered_tcp r response st s = record s {
  own = advance request_backlog (read_into r s.own);
  response = response;
  store = st;
  sent = (s.client_nr, response) ∷ s.sent;
  moment = suc (suc (suc s.moment));
}

send_tcp :
    (env : Env) (u : Session)
    → u.type ≡ tcp
    → env.send_error u.moment ≡ none
    → send_response_to_client env u
      ≡ done (pos 1) (record u { sent = (u.client_nr, u.response) ∷ u.sent; moment = suc u.moment })
unfolding send_response_to_client
send_tcp env u t sent = rw (t, sent) refl

open_tcp :
    (u : Session)
    → u.type ≡ tcp
    → 0 < length u.own.slots
    → AllOpen u.own.slots
    → is_connection_closed u ≡ done false u
unfolding is_connection_closed
open_tcp u t wide o =
    let (first, at_first, kept) = first_open u.own.slots wide o in rw (t, at_first, kept) refl

module _ (fuel : ℕ) (env : Env) (s : Session) (r : Request) (st : Store) (response : Response)
    (serving : TcpServing s) (stored : IsStored r.method) where
  current_tcp : get_current_request (read_session r s) ≡ done r (read_session r s)
  unfolding get_current_request
  current_tcp =
      let inside : s.own.request_count < length s.own.slots =
        omega (arith, serving.inside, serving.width) in
      rw (serving.is_tcp, get_elem?-set_self s.own.slots s.own.request_count r inside) refl

  prepare_tcp : prepare_for_next_request env s.type s ≡ done (pos 0) s
  unfolding prepare_for_next_request
  prepare_tcp = rw serving.is_tcp refl

  receive_tcp :
      env.arrival s.moment ≡ message r → receive_header env s ≡ done (pos 1) (read_session r s)
  unfolding receive_header
  receive_tcp arrived = rw (serving.is_tcp, arrived) refl

  dispatch_tcp : dispatch_received env (read_session r s) ≡ done r (read_session r s)
  unfolding dispatch_received request_dispatcher
  dispatch_tcp =
      let same : remember env s.type r (read_session r s) ≡ read_session r s =
        ap (λ t. remember env t r (read_session r s)) serving.is_tcp in
      rw
        (
          current_tcp,
          same,
          current_tcp,
          dispatch_nothing env r.method r (read_session r s) stored,
          current_tcp,
        )
        refl

  ready_tcp :
      ready_for_next_request env s.type (read_session r s)
      ≡ done tt (record (read_session r s) { own = advance request_backlog (read_into r s.own) })
  unfolding ready_for_next_request
  ready_tcp = rw serving.is_tcp refl

  turn-tcp :
      r.connection_close ≡ false
      → env.arrival s.moment ≡ message r
      → handle fuel env r.method (suc s.moment) r zero_response s.store ≡ done response st
      → env.send_error (suc (suc s.moment)) ≡ none
      → turn fuel env s ≡ done next_turn (answered_tcp r response st s)
  unfolding turn recv_request answer_request
  turn-tcp h arrived handled sent =
      rw
        (
          prepare_tcp,
          receive_tcp arrived,
          dispatch_tcp,
          ready_stored env r.method (read_session r s) stored,
          ready_tcp,
          handled,
          send_tcp env before_send serving.is_tcp sent,
          open_tcp (answered_tcp r response st s) serving.is_tcp wide
              (AllOpen-set s.own.slots s.own.request_count r serving.opened h),
        )
        refl
    where
      before_send : Session
      before_send = record s {
        own = advance request_backlog (read_into r s.own);
        response = response;
        store = st;
        moment = suc (suc s.moment);
      }

      wide : 0 < length (set s.own.slots s.own.request_count r)
      wide = omega (arith, length-set s.own.slots s.own.request_count r, serving.width)

  answered-TcpServing : r.connection_close ≡ false → TcpServing (answered_tcp r response st s)
  answered-TcpServing h = record {
    is_tcp = serving.is_tcp;
    width = length-set s.own.slots s.own.request_count r ∙ serving.width;
    inside = omega arith;
    opened = AllOpen-set s.own.slots s.own.request_count r serving.opened h;
  }

-- From a moment on, these requests arrive one after another, and every response can be sent.
abbrev pub TcpArrives : Env → ℕ → List Request → Type 0
TcpArrives env t [] = Unit
TcpArrives env t (r ∷ rs) =
    (env.arrival t ≡ message r)
    × (env.send_error (suc (suc t)) ≡ none)
    × (r.connection_close ≡ false)
    × IsStored r.method
    × TcpArrives env (suc (suc (suc t))) rs

-- The handlers, run on the requests in order from a moment and a table on, give these responses and
-- leave this table.
abbrev pub TcpHandles : ℕ → Env → ℕ → Store → List Request → List Response → Store → Type 0
TcpHandles fuel env t st [] [] st' = st' ≡ st
TcpHandles fuel env t st [] (a ∷ as') st' = ⊥
TcpHandles fuel env t st (r ∷ rs) [] st' = ⊥
TcpHandles fuel env t st (r ∷ rs) (a ∷ as') st' =
    (mid : Store) × (handle fuel env r.method (suc t) r zero_response st ≡ done a mid)
    × TcpHandles fuel env (suc (suc (suc t))) mid rs as' st'

-- On a TCP connection, the loop of the worker thread answers any sequence of SET, GET, DEL, DUMP
-- and RST requests with exactly the responses that the handlers give, one each and in order,
-- leaves the table that they leave, and can go on. It relies on reads of whole requests, sends
-- that succeed, handlers that return, and requests that do not close the connection.
pub job_loop-TcpHandles :
    (fuel : ℕ) (env : Env) (rounds : ℕ) (s : Session) (rs : List Request) (as' : List Response)
    (st : Store)
    → TcpServing s
    → TcpArrives env s.moment rs
    → TcpHandles fuel env s.moment s.store rs as' st
    → (s' : Session) × (job_loop fuel env (length rs + rounds) s ≡ job_loop fuel env rounds s')
      × (s'.sent ≡ log_all s.client_nr as' s.sent)
      × (s'.store ≡ st)
      × TcpServing s'
unfolding job_loop
job_loop-TcpHandles fuel env rounds s [] [] st serving a h =
    let zero_more : 0 + rounds ≡ rounds = omega arith in
    (s, ap (λ k. job_loop fuel env k s) zero_more, refl, sym h, serving)
job_loop-TcpHandles fuel env rounds s [] (x ∷ as') st serving a h = absurd h
job_loop-TcpHandles fuel env rounds s (r ∷ rs) [] st serving a h = absurd h
job_loop-TcpHandles fuel env rounds s (r ∷ rs) (x ∷ as') st serving
      (arrived, sent, stays, stored, rest) (mid, handled, more) =
    let (s', run, log, table, serving') =
      job_loop-TcpHandles fuel env rounds (answered_tcp r x mid s) rs as' st
        (answered-TcpServing fuel env s r mid x serving stored stays) rest more in
    let one_more : suc (length rs) + rounds ≡ suc (length rs + rounds) = omega arith in
    (
      s',
      rw (one_more, turn-tcp fuel env s r mid x serving stored stays arrived handled sent) run,
      log,
      table,
      serving',
    )
