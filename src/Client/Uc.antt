-- ===== src/Client/Uc.antt =====
-- The UC client: src/client/uc_client_utils.c.
use rdma_kv_store.Base.{ℕ, ◌%◌, Bool, true, ◌==◌, not, ℤ, pos, negsuc, truthy, is_neg, is_int}
use rdma_kv_store.Verbs.{
  initialised, qpt_uc, disconnected, get_device_list, open_device, alloc_pd, create_comp_channel,
  create_cq, req_notify_cq, create_qp, query_gid, random, socket, connect, write_peer, read_peer,
  null_event, disconnect_id, destroy_qp, destroy_id, destroy_cq, destroy_comp_channel, free,
  dealloc_pd, destroy_event_channel, Prog, ◌>>=◌, ◌>>◌, pure, check, check_errno, invoke, obtain,
  ask, gets, function,
}
use rdma_kv_store.Verbs.Buffers.{
  process_rdma_cm_event, ack_event, rdma_buffer_register, rdma_buffer_deregister, post_recieve,
  post_send_wr, get_local_lid,
}
use rdma_kv_store.Verbs.QueuePair.{uc_set_init_qp, connect_qp}
use rdma_kv_store.Verbs.Completion.{
  process_work_completion_events, process_work_completion_events_with_timeout,
}
use rdma_kv_store.Setup.{sizeof_request, sizeof_response, cq_capacity}
use rdma_kv_store.Setup.Resources.{connected_attr}
use rdma_kv_store.Setup.Accept.{minus_enomem}
use rdma_kv_store.Client.{Client, set_uc, lkey_of}

-- It ends without returning a value where the buffer is posted.
unfoldable pub uc_pre_post_receive_response : {R : Type 0} → Prog Client R ℤ
uc_pre_post_receive_response = function do
  c ← gets λ s. s.uc_conn
  mr ← rdma_buffer_register c.pd c.response sizeof_response true
  set_uc λ c. record c { client_response_mr = mr }
  key ← lkey_of mr
  ret ← post_recieve sizeof_response key 0 c.client_qp c.response
  check_errno (truthy ret)
  ask λ os log. os.leftover log

module _ {R : Type 0} where
  -- The results of `uc_set_init_qp` and `uc_pre_post_receive_response` are not looked at.
  unfoldable pub uc_client_prepare_connection : Prog Client R ℤ
  unfolding uc_pre_post_receive_response
  uc_client_prepare_connection = function do
    list ← obtain get_device_list
    device ← ask λ os log. os.first_device list
    context ← obtain (open_device device)
    pd ← obtain (alloc_pd context)
    set_uc λ c. record c { pd = pd }
    check_errno (pd == 0)
    channel ← obtain (create_comp_channel context)
    set_uc λ c. record c { io_completion_channel = channel }
    check_errno (channel == 0)
    cq ← obtain (create_cq context cq_capacity channel)
    set_uc λ c. record c { client_cq = cq }
    check_errno (cq == 0)
    notified ← invoke (req_notify_cq cq)
    check_errno (truthy notified)
    set_uc λ c. record c { qp_init_attr = connected_attr qpt_uc cq }
    qp ← obtain (create_qp pd 0 (connected_attr qpt_uc cq))
    set_uc λ c. record c { client_qp = qp }
    check_errno (qp == 0)
    _ ← uc_set_init_qp qp
    gid ← ask λ os log. os.gid log
    _ ← invoke (query_gid context)
    lid ← get_local_lid context
    qpn ← ask λ os log. os.qp_num qp
    psn ← obtain random
    set_uc λ c. record c {
      server_gid = gid;
      local_qp_attrs = record c.local_qp_attrs {
        gid_global_interface_id = gid.1;
        gid_global_subnet_prefix = gid.0;
        lid = lid;
        qpn = qpn;
        psn = psn % 16777216;
      };
    }
    request ← gets λ s. s.uc_conn.request
    mr ← rdma_buffer_register pd request sizeof_request true
    set_uc λ c. record c { client_request_mr = mr }
    check (mr == 0) minus_enomem
    _ ← uc_pre_post_receive_response
    pure (pos 0)

  -- The results of `write` and `read` are only reported.
  unfoldable pub uc_client_connect_to_server : Prog Client R ℤ
  uc_client_connect_to_server = function do
    fd ← invoke socket
    set_uc λ c. record c { socket_fd = fd }
    check (is_neg fd) (negsuc 0)
    connected ← invoke (connect fd)
    check (truthy connected) (negsuc 0)
    c ← gets λ s. s.uc_conn
    _ ← invoke (write_peer fd c.local_qp_attrs)
    remote ← ask λ os log. os.peer log
    _ ← invoke (read_peer fd)
    set_uc λ c. record c { remote_qp_attrs = remote }
    ret ← connect_qp c.client_qp c.local_qp_attrs remote
    check (truthy ret) ret
    pure (pos 0)

  unfoldable pub uc_send_request : ℕ → Bool → Prog Client R ℤ
  uc_send_request fuel blocking = function do
    c ← gets λ s. s.uc_conn
    key ← lkey_of c.client_request_mr
    posted ← post_send_wr sizeof_request key 1 c.client_qp c.request
    check_errno (truthy posted)
    ret ← process_work_completion_events fuel c.io_completion_channel 1 c.client_cq blocking
    check (not (is_int ret 1)) ret
    pure (pos 0)

  unfoldable pub uc_receive_response : ℕ → Bool → Prog Client R ℤ
  uc_receive_response fuel blocking = function do
    c ← gets λ s. s.uc_conn
    key ← lkey_of c.client_response_mr
    posted ← post_recieve sizeof_response key 0 c.client_qp c.response
    check_errno (truthy posted)
    ret ←
        process_work_completion_events_with_timeout fuel 1 c.client_cq c.io_completion_channel
          blocking
    check (not (is_int ret 1)) ret
    pure ret

  -- Errors are reported and passed over. Nothing sets the first two pointers that it uses.
  unfoldable pub uc_client_disconnect_and_clean : Prog Client R ℤ
  uc_client_disconnect_and_clean = function do
    c ← gets λ s. s.uc_conn
    id ← initialised c.cm_client_id
    _ ← invoke (disconnect_id id)
    events ← initialised c.cm_event_channel
    (ret, event) ← process_rdma_cm_event events disconnected null_event
    _ ← ack_event event
    _ ← invoke (destroy_qp id)
    _ ← invoke (destroy_id id)
    _ ← invoke (destroy_cq c.client_cq)
    _ ← invoke (destroy_comp_channel c.io_completion_channel)
    rdma_buffer_deregister c.client_request_mr
    _ ← invoke (free c.request)
    _ ← invoke (dealloc_pd c.pd)
    _ ← invoke (destroy_event_channel events)
    pure (pos 0)
