-- ===== src/Client/Ud.antt =====
-- The UD client: src/client/ud_client_utils.c.
use rdma_kv_store.Base.{ℕ, ◌%◌, Bool, true, ◌==◌, not, ℤ, pos, negsuc, truthy, is_neg, is_int}
use rdma_kv_store.Verbs.{
  initialised, qpt_ud, get_device_list, open_device, alloc_pd, create_comp_channel, create_cq,
  req_notify_cq, create_qp, query_gid, random, socket, connect, write_peer, read_peer, create_ah,
  destroy_qp, destroy_cq, destroy_comp_channel, free, dealloc_pd, Prog, ◌>>=◌, ◌>>◌, pure, check,
  check_errno, invoke, obtain, ask, gets, function,
}
use rdma_kv_store.Verbs.Buffers.{
  rdma_buffer_register, rdma_buffer_deregister, post_recieve, ud_post_send, get_local_lid,
}
use rdma_kv_store.Verbs.QueuePair.{ud_set_init_qp, ud_set_rts_qp}
use rdma_kv_store.Verbs.Completion.{
  process_work_completion_events, process_work_completion_events_with_timeout,
}
use rdma_kv_store.Setup.{sizeof_request, cq_capacity}
use rdma_kv_store.Setup.Resources.{connected_attr}
use rdma_kv_store.Setup.Accept.{minus_enomem}
use rdma_kv_store.Client.{sizeof_ud_response, Client, set_ud, lkey_of}

unfoldable pub ud_pre_post_receive_response : {R : Type 0} → Prog Client R ℤ
ud_pre_post_receive_response = function do
  c ← gets λ s. s.ud_conn
  mr ← rdma_buffer_register c.pd c.response sizeof_ud_response true
  set_ud λ c. record c { client_response_mr = mr }
  key ← lkey_of mr
  ret ← post_recieve sizeof_ud_response key 0 c.ud_qp c.response
  check_errno (truthy ret)
  pure ret

module _ {R : Type 0} where
  -- The results of `ud_set_init_qp` and `ud_pre_post_receive_response` are not looked at.
  unfoldable pub ud_prepare_client : Prog Client R ℤ
  unfolding ud_pre_post_receive_response
  ud_prepare_client = function do
    list ← obtain get_device_list
    device ← ask λ os log. os.first_device list
    context ← obtain (open_device device)
    pd ← obtain (alloc_pd context)
    set_ud λ c. record c { pd = pd }
    check_errno (pd == 0)
    channel ← obtain (create_comp_channel context)
    set_ud λ c. record c { io_completion_channel = channel }
    check_errno (channel == 0)
    cq ← obtain (create_cq context cq_capacity channel)
    set_ud λ c. record c { ud_cq = cq }
    check_errno (cq == 0)
    notified ← invoke (req_notify_cq cq)
    check_errno (truthy notified)
    set_ud λ c. record c { qp_init_attr = connected_attr qpt_ud cq }
    qp ← obtain (create_qp pd 0 (connected_attr qpt_ud cq))
    set_ud λ c. record c { ud_qp = qp }
    check_errno (qp == 0)
    _ ← ud_set_init_qp qp
    gid ← ask λ os log. os.gid log
    _ ← invoke (query_gid context)
    lid ← get_local_lid context
    qpn ← ask λ os log. os.qp_num qp
    psn ← obtain random
    set_ud λ c. record c {
      server_gid = gid;
      local_dgram_qp_attrs = record {
        gid_global_interface_id = gid.1;
        gid_global_subnet_prefix = gid.0;
        client_id = c.client_id;
        lid = lid;
        qpn = qpn;
        psn = psn % 16777216;
      };
    }
    request ← gets λ s. s.ud_conn.request
    mr ← rdma_buffer_register pd request sizeof_request true
    set_ud λ c. record c { client_request_mr = mr }
    check (mr == 0) minus_enomem
    _ ← ud_pre_post_receive_response
    pure (pos 0)

  -- The results of `write` and `read` are only reported, and that of `ud_set_rts_qp` is not looked at.
  unfoldable pub ud_client_connect_to_server : Prog Client R ℤ
  ud_client_connect_to_server = function do
    fd ← invoke socket
    set_ud λ c. record c { socket_fd = fd }
    check (is_neg fd) (negsuc 0)
    connected ← invoke (connect fd)
    check (truthy connected) (negsuc 0)
    c ← gets λ s. s.ud_conn
    _ ← invoke (write_peer fd c.local_dgram_qp_attrs)
    remote ← ask λ os log. os.peer log
    _ ← invoke (read_peer fd)
    set_ud λ c. record c { remote_dgram_qp_attrs = remote }
    ah ← obtain (create_ah c.pd remote.lid)
    set_ud λ c. record c { ah = ah }
    check (ah == 0) (negsuc 0)
    _ ← ud_set_rts_qp c.ud_qp c.local_dgram_qp_attrs.psn
    pure (pos 0)

  unfoldable pub ud_send_request : ℕ → Bool → Prog Client R ℤ
  ud_send_request fuel blocking = function do
    c ← gets λ s. s.ud_conn
    key ← lkey_of c.client_request_mr
    posted ← ud_post_send sizeof_request key 1 c.ud_qp c.request c.ah c.remote_dgram_qp_attrs.qpn
    check_errno (truthy posted)
    ret ← process_work_completion_events fuel c.io_completion_channel 1 c.ud_cq blocking
    check (not (is_int ret 1)) ret
    pure (pos 0)

  unfoldable pub ud_receive_response : ℕ → Bool → Prog Client R ℤ
  ud_receive_response fuel blocking = function do
    c ← gets λ s. s.ud_conn
    key ← lkey_of c.client_response_mr
    posted ← post_recieve sizeof_ud_response key 0 c.ud_qp c.response
    check_errno (truthy posted)
    ret ←
        process_work_completion_events_with_timeout fuel 1 c.ud_cq c.io_completion_channel blocking
    check (not (is_int ret 1)) ret
    pure ret

  -- Errors are reported and passed over. Nothing sets the pointer that it uses first.
  unfoldable pub ud_client_disconnect_and_clean : Prog Client R ℤ
  ud_client_disconnect_and_clean = function do
    c ← gets λ s. s.ud_conn
    id ← initialised c.cm_client_id
    _ ← invoke (destroy_qp id)
    _ ← invoke (destroy_cq c.ud_cq)
    _ ← invoke (destroy_comp_channel c.io_completion_channel)
    rdma_buffer_deregister c.client_request_mr
    _ ← invoke (free c.request)
    _ ← invoke (dealloc_pd c.pd)
    pure (pos 0)
