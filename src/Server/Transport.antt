-- ===== src/Server/Transport.antt =====
-- Receiving requests and sending responses: src/server/server_utils.c, and what it calls of
-- src/server/tcp_server_utils.c, rc_server_utils.c, uc_server_utils.c and ud_server_utils.c.
-- A receive completes into the buffer that was posted first, as the receive queue of a queue pair
-- does.
use rdma_kv_store.Base.{
  ℕ, suc, ◌+◌, ◌%◌, Bool, true, false, List, [], ◌∷◌, ◌++◌, Option, none, some, if◌then◌else◌,
  get_elem?, set, ℤ, pos, negsuc, neg, truthy,
}
use rdma_kv_store.Machine.{Cmd, out_of_bounds, done, blocked, pure, ◌>>=◌, ◌>>◌, require}
use rdma_kv_store.Common.{ConnectionType, tcp, rc, uc, ud, Request}
use rdma_kv_store.Server.{
  request_backlog, max_clients, Arrival, message, failed, Env, Buffers, Destination, peer, route,
  Session,
}

abbrev pub gets : {A : Type 0} → (Session → A) → Cmd Session A
gets f s = done (f s) s

abbrev pub modify : (Session → Session) → Cmd Session (Unit {0})
modify f s = done tt (f s)

-- A call of the environment.
abbrev pub observe : {A : Type 0} → (ℕ → A) → Cmd Session A
observe f s = done (f s.moment) (record s { moment = suc s.moment })

-- The request buffers that the connection type uses.
abbrev pub buffers_of : ConnectionType → Session → Buffers
buffers_of tcp s = s.own
buffers_of rc s = s.own
buffers_of uc s = s.own
buffers_of ud s = s.shared

-- `get_current_request`: the request that the pointer leads to
unfoldable pub get_current_request : Cmd Session Request
get_current_request = do
  b ← gets λ s. buffers_of s.type s
  require out_of_bounds (get_elem? b.slots b.request_count)

-- A receive that was posted: the current buffer goes to the end of the queue.
abbrev pub push_receive : ℤ → Buffers → Buffers
push_receive ret b = if truthy ret then b else record b { queue = b.queue ++ b.request_count ∷ [] }

-- The message lands in the buffer at the front of the queue.
abbrev pub land_in : Request → ℕ → List ℕ → Buffers → Buffers
land_in r i rest b = record b { slots = set b.slots i r; queue = rest }

-- A completion of the client's queue pair. With nothing posted it does not come.
unfoldable pub complete : Request → List ℕ → Cmd Session ℤ
complete r [] s = blocked
complete r (i ∷ rest) s = done (pos 1) (record s { own = land_in r i rest s.own })

-- A completion of the UD server's queue pair.
unfoldable pub complete_shared : Request → List ℕ → Cmd Session ℤ
complete_shared r [] s = blocked
complete_shared r (i ∷ rest) s = done (pos 1) (record s { shared = land_in r i rest s.shared })

-- `pthread_mutex_lock(&ud_server->lock)`
unfoldable pub lock_server : Cmd Session (Unit {0})
lock_server s = if s.lock then blocked else done tt (record s { lock = true })

-- `receive_header` for TCP: a `read` of a whole request into the current buffer. `failed` stands
-- for a `select` that fails and for a read of another length, whose bytes nobody looks at.
unfoldable pub tcp_receive : Arrival → Cmd Session ℤ
tcp_receive (message r) s =
    done (pos 1) (record s { own = record s.own { slots = set s.own.slots s.own.request_count r } })
tcp_receive (failed e) s = done (negsuc 0) s

-- `rc_receive_header` and `uc_receive_header`
unfoldable pub connected_receive : Arrival → Cmd Session ℤ
unfolding complete
connected_receive (message r) s = complete r s.own.queue s
connected_receive (failed e) s = done (neg e) s

-- `ud_receive_header`: the lock is taken before the result is looked at.
unfoldable pub ud_receive : Arrival → Cmd Session ℤ
unfolding complete_shared lock_server
ud_receive (message r) = do ret ← λ s. complete_shared r s.shared.queue s; lock_server; pure ret
ud_receive (failed e) = do lock_server; pure (neg e)

unfoldable pub receive_arrival : ConnectionType → Arrival → Cmd Session ℤ
unfolding tcp_receive connected_receive ud_receive
receive_arrival tcp a = tcp_receive a
receive_arrival rc a = connected_receive a
receive_arrival uc a = connected_receive a
receive_arrival ud a = ud_receive a

-- Where a response goes. The UD server looks both arrays up by the number that the request gave, though
-- the second one is in the order of the connections.
unfoldable pub destination : ConnectionType → Cmd Session Destination
destination tcp s = done (peer s.client_nr) s
destination rc s = done (peer s.client_nr) s
destination uc s = done (peer s.client_nr) s
destination ud s =
    (do
      handle ← require out_of_bounds (get_elem? s.ah s.client_handling)
      qpn ← require out_of_bounds (get_elem? s.remote_qpns s.client_handling)
      pure (route (record { handle = handle; qpn = qpn })))
      s

-- What a response that cannot be sent gives: -1 for TCP, `-errno` for the others.
abbrev pub send_failure : ConnectionType → ℕ → ℤ
send_failure tcp e = negsuc 0
send_failure rc e = neg e
send_failure uc e = neg e
send_failure ud e = neg e

-- The response is on its way, or not.
unfoldable pub put_response : Destination → Option ℕ → Cmd Session ℤ
put_response (peer nr) none s = done (pos 1) (record s { sent = (nr, s.response) ∷ s.sent })
put_response (route r) none s =
    done (pos 1) (record s { datagrams = (r, s.response) ∷ s.datagrams })
put_response to (some e) s = done (send_failure s.type e) s

abbrev pub advance : ℕ → Buffers → Buffers
advance size b = record b { request_count = (b.request_count + 1) % size }

-- `is_connection_closed`, which looks at the first buffer whichever is current
unfoldable pub is_connection_closed : Cmd Session Bool
is_connection_closed = do
  b ← gets λ s. buffers_of s.type s
  first ← require out_of_bounds (get_elem? b.slots 0)
  pure first.connection_close

module _ (env : Env) where
  -- `rc_post_receive_request` and `uc_post_receive_request`
  unfoldable pub post_receive_request : Cmd Session ℤ
  post_receive_request = do
    ret ← observe env.post_recv
    modify λ s. record s { own = push_receive ret s.own }
    pure ret

  unfoldable pub ud_post_receive_request : Cmd Session ℤ
  ud_post_receive_request = do
    ret ← observe env.post_recv
    modify λ s. record s { shared = push_receive ret s.shared }
    pure ret

  unfoldable pub prepare_for_next_request : ConnectionType → Cmd Session ℤ
  unfolding post_receive_request
  prepare_for_next_request tcp = pure (pos 0)
  prepare_for_next_request rc = post_receive_request
  prepare_for_next_request uc = post_receive_request
  prepare_for_next_request ud = pure (pos 0)

  unfoldable pub receive_header : Cmd Session ℤ
  unfolding receive_arrival
  receive_header = do a ← observe env.arrival; λ s. receive_arrival s.type a s

  -- `send_response_to_client`, with `tcp_send_response`, `rc_send_response`, `uc_send_response`
  -- and `ud_send_response`
  unfoldable pub send_response_to_client : Cmd Session ℤ
  unfolding destination put_response
  send_response_to_client = do
    to ← λ s. destination s.type s
    error ← observe env.send_error
    put_response to error

  unfoldable pub ready_for_next_request : ConnectionType → Cmd Session (Unit {0})
  unfolding ud_post_receive_request
  ready_for_next_request tcp = modify λ s. record s { own = advance request_backlog s.own }
  ready_for_next_request rc = modify λ s. record s { own = advance request_backlog s.own }
  ready_for_next_request uc = modify λ s. record s { own = advance request_backlog s.own }
  ready_for_next_request ud = do
    _ ← ud_post_receive_request
    modify λ s. record s { shared = advance max_clients s.shared; lock = false }
