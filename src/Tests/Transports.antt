-- ===== src/Tests/Transports.antt =====
-- The theorems on the loop of a worker over TCP and on the UD server, at concrete inputs.
use rdma_kv_store.Base.{
  ℕ, zero, suc, ◌+◌, ◌≡◌, refl, false, [], ◌∷◌, arith, length-replicate, replicate,
}
use rdma_kv_store.Common.{get, tcp, ud, Request, zero_response}
use rdma_kv_store.Hash.Init.{fresh_store}
use rdma_kv_store.KvStore.Handlers.{key_error_response}
use rdma_kv_store.Server.{Session}
use rdma_kv_store.Server.Pool.{around}
use rdma_kv_store.Server.Sequence.{log_all}
use rdma_kv_store.Server.Turn.{AllOpen}
use rdma_kv_store.Server.Worker.{job_loop}
use rdma_kv_store.Server.TcpSequence.{TcpServing, job_loop-TcpHandles}
use rdma_kv_store.Server.Held.{IsKnown}
use rdma_kv_store.Server.UdTurn.{UdServing}
use rdma_kv_store.Server.UdSequence.{log_each, job_loop-UdServing}
use rdma_kv_store.Tests.Fixture.{no_items}
use rdma_kv_store.Tests.Sessions.{first_route, with_method, always, session, get_missing}

abbrev tcp_session : Session
tcp_session = record session { type = tcp }

tcp_session-TcpServing : TcpServing tcp_session
tcp_session-TcpServing = record {
  is_tcp = refl;
  width = refl;
  inside = omega arith;
  opened = (refl, (refl, (refl, (refl, (refl, tt)))));
}

job_loop-TcpHandles_example :
    (s' : Session) × (job_loop 4 (always get) (2 + 3) tcp_session ≡ job_loop 4 (always get) 3 s')
    × (s'.sent
        ≡ log_all 7 (key_error_response zero_response ∷ key_error_response zero_response ∷ []) [])
    × (s'.store ≡ fresh_store 1 no_items)
    × TcpServing s'
job_loop-TcpHandles_example =
    job_loop-TcpHandles 4 (always get) 3 tcp_session (with_method get ∷ with_method get ∷ [])
      (key_error_response zero_response ∷ key_error_response zero_response ∷ [])
      (fresh_store 1 no_items) tcp_session-TcpServing
      (refl, refl, refl, tt, (refl, refl, refl, tt, tt))
      (fresh_store 1 no_items, get_missing 1, (fresh_store 1 no_items, get_missing 4, refl))

AllOpen-replicate : (n : ℕ) (r : Request) → r.connection_close ≡ false → AllOpen (replicate n r)
AllOpen-replicate zero r h = tt
AllOpen-replicate (suc n) r h = (h, AllOpen-replicate n r h)

abbrev server_session : Session
server_session = record session {
  type = ud;
  shared = record {
    slots = replicate 1024 (with_method get);
    request_count = 0;
    queue = around 0 1024;
  };
}

server_session-UdServing : UdServing server_session
server_session-UdServing = record {
  is_ud = refl;
  unlocked = refl;
  width = length-replicate 1024 (with_method get);
  place = 0;
  count = omega arith;
  queue = refl;
  opened = AllOpen-replicate 1024 (with_method get) refl;
}

first-IsKnown : IsKnown server_session.ah server_session.remote_qpns 0 first_route
first-IsKnown = record { handle_at = refl; qpn_at = refl }

job_loop-UdServing_example :
    (s' : Session) × (job_loop 4 (always get) (2 + 3) server_session ≡ job_loop 4 (always get) 3 s')
    × (s'.datagrams
        ≡ log_each
            (first_route ∷ first_route ∷ [])
            (key_error_response zero_response ∷ key_error_response zero_response ∷ [])
            [])
    × (s'.store ≡ fresh_store 1 no_items)
    × UdServing s'
job_loop-UdServing_example =
    job_loop-UdServing 4 (always get) 3 server_session (with_method get ∷ with_method get ∷ [])
      (first_route ∷ first_route ∷ [])
      (key_error_response zero_response ∷ key_error_response zero_response ∷ [])
      (fresh_store 1 no_items) server_session-UdServing
      (refl, refl, refl, refl, first-IsKnown, tt, (refl, refl, refl, refl, first-IsKnown, tt, tt))
      (fresh_store 1 no_items, get_missing 2, (fresh_store 1 no_items, get_missing 6, refl))
