-- ===== src/Client/Rc.antt =====
-- The RC client: src/client/rc_client_utils.c.
use rdma_kv_store.Base.{ℕ, Bool, true, ◌==◌, not, ℤ, pos, truthy, is_int}
use rdma_kv_store.Verbs.{
  qpt_rc, established, disconnected, addr_resolved, route_resolved, create_event_channel, create_id,
  resolve_addr, resolve_route, CmPtr, null_event, freed_event, alloc_pd, create_comp_channel,
  create_cq, req_notify_cq, cm_create_qp, connect_id, disconnect_id, destroy_qp, destroy_id,
  destroy_cq, destroy_comp_channel, free, dealloc_pd, destroy_event_channel, Prog, ◌>>=◌, ◌>>◌,
  pure, check, check_errno, invoke, obtain, ask, gets, function, Call, CmEventType,
}
use rdma_kv_store.Verbs.Buffers.{
  process_rdma_cm_event, ack_event, rdma_buffer_register, rdma_buffer_deregister, post_recieve,
  post_send_wr,
}
use rdma_kv_store.Verbs.Completion.{process_work_completion_events}
use rdma_kv_store.Setup.{sizeof_request, sizeof_response, cq_capacity}
use rdma_kv_store.Setup.Resources.{connected_attr}
use rdma_kv_store.Client.{Client, set_rc, lkey_of}

-- A call for the connection, and the event that tells that it is done, acknowledged.
unfoldable pub cm_step : ℕ → Call → CmEventType → CmPtr → Prog Client ℤ (Unit {0})
cm_step channel call expected old = do
  called ← invoke call
  check_errno (truthy called)
  (ret, event) ← process_rdma_cm_event channel expected old
  check (truthy ret) ret
  acked ← ack_event event
  check_errno (truthy acked)

-- It ends without returning a value where the buffer is posted.
unfoldable pub rc_pre_post_receive_response : {R : Type 0} → Prog Client R ℤ
rc_pre_post_receive_response = function do
  c ← gets λ s. s.rc_conn
  mr ← rdma_buffer_register c.pd c.response sizeof_response true
  set_rc λ c. record c { client_response_mr = mr }
  key ← lkey_of mr
  ret ← post_recieve sizeof_response key 0 c.client_qp c.response
  check_errno (truthy ret)
  ask λ os log. os.leftover log

module _ {R : Type 0} where
  -- The registration of the request, and the result of `rc_pre_post_receive_response`, are not looked at.
  unfoldable pub client_prepare_connection : Prog Client R ℤ
  unfolding cm_step rc_pre_post_receive_response
  client_prepare_connection = function do
    events ← obtain create_event_channel
    set_rc λ c. record c { cm_event_channel = events }
    check_errno (events == 0)
    id ← ask λ os log. os.ptr log (create_id events)
    made ← invoke (create_id events)
    set_rc λ c. record c { cm_client_id = id }
    check_errno (truthy made)
    cm_step events (resolve_addr id) addr_resolved null_event
    cm_step events (resolve_route id) route_resolved freed_event
    context ← ask λ os log. os.verbs id
    pd ← obtain (alloc_pd context)
    set_rc λ c. record c { pd = pd }
    check_errno (pd == 0)
    channel ← obtain (create_comp_channel context)
    set_rc λ c. record c { io_completion_channel = channel }
    check_errno (channel == 0)
    cq ← obtain (create_cq context cq_capacity channel)
    set_rc λ c. record c { client_cq = cq }
    check_errno (cq == 0)
    notified ← invoke (req_notify_cq cq)
    check_errno (truthy notified)
    set_rc λ c. record c { qp_init_attr = connected_attr qpt_rc cq }
    ret ← invoke (cm_create_qp id pd (connected_attr qpt_rc cq))
    check_errno (truthy ret)
    qp ← ask λ os log. os.cm_qp log id
    set_rc λ c. record c { client_qp = qp }
    request ← gets λ s. s.rc_conn.request
    mr ← rdma_buffer_register pd request sizeof_request true
    set_rc λ c. record c { client_request_mr = mr }
    _ ← rc_pre_post_receive_response
    pure (pos 0)

  unfoldable pub client_connect_to_server : Prog Client R ℤ
  unfolding cm_step
  client_connect_to_server = function do
    c ← gets λ s. s.rc_conn
    cm_step c.cm_event_channel (connect_id c.cm_client_id) established null_event
    pure (pos 0)

  unfoldable pub rc_send_request : ℕ → Bool → Prog Client R ℤ
  rc_send_request fuel blocking = function do
    c ← gets λ s. s.rc_conn
    key ← lkey_of c.client_request_mr
    posted ← post_send_wr sizeof_request key 1 c.client_qp c.request
    check_errno (truthy posted)
    ret ← process_work_completion_events fuel c.io_completion_channel 1 c.client_cq blocking
    check (not (is_int ret 1)) ret
    pure (pos 0)

  unfoldable pub rc_receive_response : ℕ → Bool → Prog Client R ℤ
  rc_receive_response fuel blocking = function do
    c ← gets λ s. s.rc_conn
    key ← lkey_of c.client_response_mr
    posted ← post_recieve sizeof_response key 0 c.client_qp c.response
    check_errno (truthy posted)
    ret ← process_work_completion_events fuel c.io_completion_channel 1 c.client_cq blocking
    check (not (is_int ret 1)) ret
    pure ret

  -- Errors are reported and passed over.
  unfoldable pub client_disconnect_and_clean : Prog Client R ℤ
  client_disconnect_and_clean = function do
    c ← gets λ s. s.rc_conn
    _ ← invoke (disconnect_id c.cm_client_id)
    (ret, event) ← process_rdma_cm_event c.cm_event_channel disconnected null_event
    _ ← ack_event event
    _ ← invoke (destroy_qp c.cm_client_id)
    _ ← invoke (destroy_id c.cm_client_id)
    _ ← invoke (destroy_cq c.client_cq)
    _ ← invoke (destroy_comp_channel c.io_completion_channel)
    rdma_buffer_deregister c.client_request_mr
    _ ← invoke (free c.request)
    _ ← invoke (dealloc_pd c.pd)
    _ ← invoke (destroy_event_channel c.cm_event_channel)
    pure (pos 0)
