-- ===== src/Setup/Accept.antt =====
-- Accepting a client: `rc_accept_new_connection`, `uc_accept_new_connection`,
-- `ud_accept_new_connection` and `tcp_accept_new_connection` of src/server.
use rdma_kv_store.Base.{
  ℕ, zero, suc, Bool, true, false, ◌==◌, ltb, if◌then◌else◌, set, ℤ, pos, negsuc, neg, truthy,
  is_neg,
}
use rdma_kv_store.Machine.{out_of_bounds}
use rdma_kv_store.Common.{ConnectionType, tcp, rc, uc, ud}
use rdma_kv_store.Verbs.{
  initialised, PeerAttr, connect_request, established, null_event, freed_event, accept_id, accept,
  no_delay, read_peer, write_peer, create_ah, faults, Prog, ◌>>=◌, ◌>>◌, pure, exit_with, check,
  check_errno, invoke, obtain, ask, gets, modify, function,
}
use rdma_kv_store.Verbs.Buffers.{rdma_buffer_register, ack_event, load_event, process_rdma_cm_event}
use rdma_kv_store.Verbs.QueuePair.{connect_qp}
use rdma_kv_store.Server.{request_backlog, max_clients}
use rdma_kv_store.Setup.{sizeof_response, UdServer, Setup}
use rdma_kv_store.Setup.Resources.{
  minus_einval, set_rc, set_uc, setup_rc_client_resources, setup_uc_client_resources,
  rc_post_receive, uc_post_receive, post_all,
}

-- `r == -1`
abbrev pub is_minus_one : ℤ → Bool
is_minus_one (pos n) = false
is_minus_one (negsuc zero) = true
is_minus_one (negsuc (suc n)) = false

-- `-ENOMEM`
abbrev pub minus_enomem : ℤ
minus_enomem = neg 12

abbrev pub all_requests_size : ℕ
all_requests_size = 1760

abbrev pub set_ud_server : {R : Type 0} → (UdServer → UdServer) → Prog Setup R (Unit {0})
set_ud_server f = modify λ s. record s { ud_server = f s.ud_server }

-- Taking the next connection of a listening socket, and TCP_NODELAY on it: the new socket.
unfoldable pub accept_socket : ℤ → (ℤ → Setup → Setup) → Prog Setup ℤ ℤ
accept_socket fd put = do
  socket ← invoke (accept fd)
  modify (put socket)
  check (is_neg socket) (negsuc 0)
  set_up ← invoke (no_delay socket)
  check (is_neg set_up) (negsuc 0)
  pure socket

-- The second half of `rc_accept_new_connection`: from the registration of the response buffer on,
-- with the result of the last `post`.
unfoldable pub rc_finish_accept : ℤ → Prog Setup ℤ ℤ
rc_finish_accept posted = do
  s ← gets λ s. s
  mr ← rdma_buffer_register s.rc_client.pd s.response sizeof_response false
  set_rc λ c. record c { response_mr = mr }
  check (mr == 0) posted
  accepted ← invoke (accept_id s.rc_client.cm_client_id)
  check_errno (truthy accepted)
  (ret, event) ← process_rdma_cm_event s.rc_server.cm_event_channel established freed_event
  check_errno (truthy ret)
  acked ← ack_event event
  check_errno (truthy acked)
  pure acked

-- An address handle stored under the number that the client gave, which nothing checks.
unfoldable pub store_ah : ℕ → ℕ → Prog Setup ℤ (Unit {0})
store_ah client_id ah =
    if ltb client_id max_clients
    then (set_ud_server λ u. record u { ah = set u.ah client_id ah })
    else (λ os log s. faults out_of_bounds)

-- The attributes of the client are stored under the number of clients so far, which nothing
-- checks.
unfoldable pub store_peer : ℕ → PeerAttr → Prog Setup ℤ (Unit {0})
store_peer n attrs =
    if ltb n max_clients
    then (set_ud_server
        λ u. record u { remote_dgram_qp_attrs = set u.remote_dgram_qp_attrs n attrs })
    else (λ os log s. faults out_of_bounds)

module _ {R : Type 0} where
  -- The result of `setup_rc_client_resources` is not looked at.
  unfoldable pub rc_accept_new_connection : Prog Setup R ℤ
  unfolding rc_finish_accept
  rc_accept_new_connection = function do
    s ← gets λ s. s
    (ret, event) ← process_rdma_cm_event s.rc_server.cm_event_channel connect_request null_event
    check (truthy ret) ret
    e ← load_event event
    set_rc λ c. record c { cm_client_id = e.id }
    _ ← setup_rc_client_resources
    acked ← ack_event event
    check_errno (truthy acked)
    c ← gets λ s. s.rc_client
    check (c.cm_client_id == 0) minus_einval
    mr ← rdma_buffer_register c.pd s.request all_requests_size true
    set_rc λ c. record c { request_mr = mr }
    check (mr == 0) minus_enomem
    posted ← post_all request_backlog 0 rc_post_receive
    modify λ s. record s { request_count = 0 }
    rc_finish_accept posted

  -- The results of `setup_uc_client_resources`, `read` and `write` are not looked at.
  unfoldable pub uc_accept_new_connection : Prog Setup R ℤ
  uc_accept_new_connection = function do
    s ← gets λ s. s
    set_uc λ c. record c { server_gid = s.uc_server.server_gid; context = s.uc_server.context }
    _ ← setup_uc_client_resources
    c ← gets λ s. s.uc_client
    mr ← rdma_buffer_register c.pd s.request all_requests_size true
    set_uc λ c. record c { request_mr = mr }
    check (mr == 0) minus_enomem
    posted ← post_all request_backlog 0 uc_post_receive
    modify λ s. record s { request_count = 0 }
    response_mr ← rdma_buffer_register c.pd s.response sizeof_response false
    set_uc λ c. record c { response_mr = response_mr }
    check (response_mr == 0) posted
    socket ←
        accept_socket s.uc_server.socket_fd
          λ fd s. record s { uc_client = record s.uc_client { socket_fd = fd } }
    remote ← ask λ os log. os.peer log
    _ ← invoke (read_peer socket)
    local ← gets λ s. s.uc_client.local_qp_attrs
    _ ← invoke (write_peer socket local)
    qp ← initialised c.client_qp
    ret ← connect_qp qp local remote
    check (truthy ret) ret
    pure ret

  unfoldable pub ud_accept_new_connection : Prog Setup R ℤ
  unfolding accept_socket store_ah store_peer
  ud_accept_new_connection = function do
    s ← gets λ s. s
    mr ← rdma_buffer_register s.ud_server.pd s.response sizeof_response false
    modify λ s. record s { ud_client = record s.ud_client { response_mr = mr } }
    check (mr == 0) (negsuc 0)
    socket ←
        accept_socket s.ud_server.socket_fd
          λ fd s. record s { ud_client = record s.ud_client { socket_fd = fd } }
    remote ← ask λ os log. os.peer log
    _ ← invoke (read_peer socket)
    store_peer s.ud_server.client_counter remote
    ret ← invoke (write_peer socket s.ud_server.local_dgram_qp_attrs)
    ah ← obtain (create_ah s.ud_server.pd remote.lid)
    store_ah remote.client_id ah
    check (ah == 0) (negsuc 0)
    set_ud_server λ u. record u { client_counter = suc u.client_counter }
    pure ret

  -- `tcp_accept` asserts that `accept` does not fail, which ends the process where it does.
  unfoldable pub tcp_accept_new_connection : Prog Setup R ℤ
  tcp_accept_new_connection = function do
    s ← gets λ s. s
    socket ← invoke (accept s.tcp_socket)
    modify λ s. record s { tcp_client_socket = socket }
    if is_minus_one socket then exit_with 134 else pure tt
    check (is_neg socket) (negsuc 0)
    set_up ← invoke (no_delay socket)
    check (is_neg set_up) (negsuc 0)
    pure (pos 0)

  -- Where the result is negative, the caller frees the client.
  unfoldable pub accept_new_connection : ConnectionType → Prog Setup R ℤ
  unfolding rc_accept_new_connection uc_accept_new_connection ud_accept_new_connection
      tcp_accept_new_connection
  accept_new_connection tcp = tcp_accept_new_connection
  accept_new_connection rc = rc_accept_new_connection
  accept_new_connection uc = uc_accept_new_connection
  accept_new_connection ud = ud_accept_new_connection
