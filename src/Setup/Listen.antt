-- ===== src/Setup/Listen.antt =====
-- Starting a server: `init_tcp_server`, `init_rc_server`, `init_uc_server` and `init_ud_server` of
-- src/server.
use rdma_kv_store.Base.{
  true, ℕ, zero, suc, ◌+◌, ◌*◌, ◌%◌, ◌==◌, if◌then◌else◌, ℤ, pos, negsuc, truthy, is_neg,
}
use rdma_kv_store.Common.{ConnectionType, tcp, rc, uc, ud}
use rdma_kv_store.Verbs.{
  qpt_ud, QpInitAttr, alloc_pd, create_comp_channel, create_cq, req_notify_cq, create_qp, query_gid,
  open_device, get_device_list, create_event_channel, socket, sigpipe_ignored, create_id, bind_id,
  listen_id, reuse_addr, bind, getsockname, listen, close_fd, random, calloc, Prog, ◌>>=◌, ◌>>◌,
  pure, exit_with, check, check_errno, invoke, obtain, ask, gets, modify, function,
}
use rdma_kv_store.Verbs.Buffers.{rdma_buffer_register, post_recieve, get_local_lid}
use rdma_kv_store.Verbs.QueuePair.{ud_set_init_qp, ud_set_rts_qp}
use rdma_kv_store.Server.{max_clients}
use rdma_kv_store.Setup.{sizeof_ud_request, max_sge, UdServer, Setup}
use rdma_kv_store.Setup.Accept.{is_minus_one, minus_enomem, set_ud_server}

-- BACKLOG of src/server/server_utils.h
abbrev pub backlog : ℕ
backlog = 10

-- EXIT_FAILURE
abbrev pub exit_failure : ℕ
exit_failure = 1

-- A socket that listens, made as the TCP, UC and UD servers make theirs; `put` stores it. Any failure
-- ends the process.
unfoldable pub listening_socket : {R : Type 0} → (ℤ → Setup → Setup) → Prog Setup R ℤ
listening_socket put = do
  fd ← invoke socket
  modify (put fd)
  if is_minus_one fd then exit_with exit_failure else pure tt
  reused ← invoke (reuse_addr fd)
  if is_neg reused then (do _ ← invoke (close_fd fd); exit_with exit_failure) else pure tt
  bound ← invoke (bind fd)
  if is_neg bound then exit_with exit_failure else pure tt
  named ← invoke (getsockname fd)
  if is_minus_one named then exit_with exit_failure else pure tt
  listens ← invoke (listen fd backlog)
  if is_neg listens then exit_with exit_failure else pure tt
  _ ← invoke sigpipe_ignored
  pure fd

-- A completion channel, and a queue for it on which notifications are asked for, as the UD server
-- makes them: `put` stores each handle as soon as it is there.
unfoldable pub notified_cq :
    ℕ → (ℕ → UdServer → UdServer) → (ℕ → UdServer → UdServer) → Prog Setup ℤ ℕ
notified_cq context put_channel put_cq = do
  channel ← obtain (create_comp_channel context)
  set_ud_server (put_channel channel)
  check_errno (channel == 0)
  cq ← obtain (create_cq context (max_clients + 1) channel)
  set_ud_server (put_cq cq)
  check_errno (cq == 0)
  ret ← invoke (req_notify_cq cq)
  check_errno (truthy ret)
  pure cq

unfoldable pub ud_post_receive : {R : Type 0} → Prog Setup R ℤ
ud_post_receive = do
  u ← gets λ s. s.ud_server
  key ← ask λ os log. os.lkey u.request_mr
  post_recieve sizeof_ud_request key u.request_count u.ud_qp
      (u.request + u.request_count * sizeof_ud_request)

-- The loop that posts the UD server's `n` buffers from `i` on.
unfoldable pub ud_post_all : ℕ → ℕ → Prog Setup ℤ ℤ
unfolding ud_post_receive
ud_post_all zero i = pure (pos 0)
ud_post_all (suc n) i = do
  set_ud_server λ u. record u { request_count = i }
  ret ← ud_post_receive
  check (truthy ret) ret
  ud_post_all n (suc i)

abbrev pub ud_attr : ℕ → ℕ → QpInitAttr
ud_attr recv_cq send_cq = record {
  max_sge = max_sge;
  max_wr = max_clients;
  qp_type = qpt_ud;
  recv_cq = recv_cq;
  send_cq = send_cq;
}

-- What `init_ud_server` tells clients about its queue pair.
unfoldable pub ud_local_attrs : ℕ → ℕ → Prog Setup ℤ (Unit {0})
ud_local_attrs context qp = do
  gid ← ask λ os log. os.gid log
  _ ← invoke (query_gid context)
  lid ← get_local_lid context
  qpn ← ask λ os log. os.qp_num qp
  psn ← obtain random
  set_ud_server λ u. record u {
    server_gid = gid;
    local_dgram_qp_attrs = record u.local_dgram_qp_attrs {
      gid_global_interface_id = gid.1;
      gid_global_subnet_prefix = gid.0;
      lid = lid;
      qpn = qpn;
      psn = psn % 16777216;
    };
  }

module _ {R : Type 0} where
  unfoldable pub init_tcp_server : Prog Setup R ℤ
  unfolding listening_socket
  init_tcp_server = listening_socket λ fd s. record s { tcp_socket = fd }

  unfoldable pub init_rc_server : Prog Setup R ℤ
  init_rc_server = function do
    channel ← obtain create_event_channel
    modify λ s. record s { rc_server = record s.rc_server { cm_event_channel = channel } }
    check_errno (channel == 0)
    id ← ask λ os log. os.ptr log (create_id channel)
    made ← invoke (create_id channel)
    modify λ s. record s { rc_server = record s.rc_server { cm_server_id = id } }
    check_errno (truthy made)
    bound ← invoke (bind_id id)
    check_errno (truthy bound)
    ret ← invoke (listen_id id 8)
    check_errno (truthy ret)
    pure ret

  -- The result is the -1 that the variable starts with.
  unfoldable pub init_uc_server : Prog Setup R ℤ
  unfolding listening_socket
  init_uc_server = function do
    list ← obtain get_device_list
    device ← ask λ os log. os.first_device list
    context ← obtain (open_device device)
    gid ← ask λ os log. os.gid log
    _ ← invoke (query_gid context)
    modify λ s. record s { uc_server = record s.uc_server { context = context; server_gid = gid } }
    _ ← listening_socket λ fd s. record s { uc_server = record s.uc_server { socket_fd = fd } }
    pure (negsuc 0)

  -- The results of `ud_set_init_qp` and `ud_set_rts_qp` are not looked at.
  unfoldable pub init_ud_server : Prog Setup R ℤ
  unfolding listening_socket notified_cq ud_post_all ud_local_attrs
  init_ud_server = function do
    list ← obtain get_device_list
    device ← ask λ os log. os.first_device list
    context ← obtain (open_device device)
    pd ← obtain (alloc_pd context)
    set_ud_server λ u. record u { pd = pd }
    check_errno (pd == 0)
    recv_cq ←
        notified_cq context (λ c u. record u { io_completion_channel_recv = c })
          λ c u. record u { ud_recv_cq = c }
    send_cq ←
        notified_cq context (λ c u. record u { io_completion_channel_send = c })
          λ c u. record u { ud_send_cq = c }
    set_ud_server λ u. record u { qp_init_attr = ud_attr recv_cq send_cq }
    qp ← obtain (create_qp pd 0 (ud_attr recv_cq send_cq))
    set_ud_server λ u. record u { ud_qp = qp }
    check_errno (qp == 0)
    _ ← ud_set_init_qp qp
    ud_local_attrs context qp
    request ← obtain (calloc max_clients)
    set_ud_server λ u. record u { request = request }
    mr ← rdma_buffer_register pd request (sizeof_ud_request * max_clients) true
    set_ud_server λ u. record u { request_mr = mr }
    check (mr == 0) minus_enomem
    ret ← ud_post_all max_clients 0
    set_ud_server λ u. record u { request_count = 0 }
    psn ← gets λ s. s.ud_server.local_dgram_qp_attrs.psn
    _ ← ud_set_rts_qp qp psn
    _ ← listening_socket λ fd s. record s { ud_server = record s.ud_server { socket_fd = fd } }
    pure ret

  -- The last `switch` of `server_init`. What the functions return is not looked at.
  unfoldable pub start_server : ConnectionType → Prog Setup R (Unit {0})
  unfolding init_tcp_server init_rc_server init_uc_server init_ud_server
  start_server tcp = do _ ← init_tcp_server; pure tt
  start_server rc = do _ ← init_rc_server; pure tt
  start_server uc = do _ ← init_uc_server; pure tt
  start_server ud = do _ ← init_ud_server; pure tt
