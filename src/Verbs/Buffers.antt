-- ===== src/Verbs/Buffers.antt =====
-- Memory regions, work requests, connection events and addresses: src/rdma_common.c.
use rdma_kv_store.Base.{ℕ, Bool, true, false, ◌==◌, if◌then◌else◌, ℤ, negsuc, neg_ℤ, truthy}
use rdma_kv_store.Machine.{null_pointer, use_after_free}
use rdma_kv_store.Verbs.{
  ack_null, CmPtr, null_event, freed_event, live_event, undefined, CmEventType, connect_request,
  established, disconnected, addr_resolved, route_resolved, other_event, CmEvent, reg_mr, dereg_mr,
  post_recv, post_send, post_ud_send, get_cm_event, ack_cm_event, lookup_host, query_port, Prog,
  ◌>>=◌, ◌>>◌, pure, leave, check, invoke, obtain, ask, minus_errno, function,
}

abbrev pub ib_phys_port : ℕ
ib_phys_port = 1

-- 0x11111111
abbrev pub ud_qkey : ℕ
ud_qkey = 286331153

abbrev pub same_event : CmEventType → CmEventType → Bool
same_event connect_request connect_request = true
same_event established established = true
same_event disconnected disconnected = true
same_event addr_resolved addr_resolved = true
same_event route_resolved route_resolved = true
same_event other_event other_event = true
same_event _ _ = false

module _ {S R : Type 0} where
  -- `remote` tells whether the other side may read and write.
  unfoldable pub rdma_buffer_register : ℕ → ℕ → ℕ → Bool → Prog S R ℕ
  rdma_buffer_register pd addr size remote =
      function
        do check (pd == 0) 0; mr ← obtain (reg_mr pd addr size remote); check (mr == 0) 0; pure mr

  unfoldable pub rdma_buffer_deregister : ℕ → Prog S R (Unit {0})
  rdma_buffer_deregister mr = function do check (mr == 0) tt; _ ← invoke (dereg_mr mr); pure tt

  -- `rdma_ack_cm_event`, which frees the event
  unfoldable pub ack_event : CmPtr → Prog S R ℤ
  ack_event null_event = invoke ack_null
  ack_event freed_event = undefined use_after_free
  ack_event (live_event e) = invoke (ack_cm_event e.id)

  -- `*cm_event`
  unfoldable pub load_event : CmPtr → Prog S R CmEvent
  load_event null_event = undefined null_pointer
  load_event freed_event = undefined use_after_free
  load_event (live_event e) = pure e

  -- The result, with the caller's pointer, which stays as it was where no event comes.
  unfoldable pub process_rdma_cm_event : ℕ → CmEventType → CmPtr → Prog S R (ℤ × CmPtr)
  process_rdma_cm_event echannel expected old = function do
    event ← ask λ os log. os.event log
    ret ← invoke (get_cm_event echannel)
    e ← minus_errno
    check (truthy ret) (e, old)
    if truthy event.status
        then (do _ ← invoke (ack_cm_event event.id); leave (neg_ℤ event.status, freed_event))
        else pure tt
    if same_event event.event expected
        then pure tt
        else (do _ ← invoke (ack_cm_event event.id); leave (negsuc 0, freed_event))
    pure (ret, live_event event)

  unfoldable pub get_addr : Prog S R ℤ
  get_addr = function do ret ← invoke lookup_host; check (truthy ret) ret; pure ret

  unfoldable pub post_recieve : ℕ → ℕ → ℕ → ℕ → ℕ → Prog S R ℤ
  post_recieve size lkey wr_id qp buf =
      invoke (post_recv qp (record { wr_id = wr_id; addr = buf; size = size; lkey = lkey }))

  unfoldable pub post_send_wr : ℕ → ℕ → ℕ → ℕ → ℕ → Prog S R ℤ
  post_send_wr size lkey wr_id qp buf =
      invoke (post_send qp (record { wr_id = wr_id; addr = buf; size = size; lkey = lkey }))

  unfoldable pub ud_post_send : ℕ → ℕ → ℕ → ℕ → ℕ → ℕ → ℕ → Prog S R ℤ
  ud_post_send size lkey wr_id qp buf ah qpn = invoke (
      post_ud_send qp (record { wr_id = wr_id; addr = buf; size = size; lkey = lkey })
        (record { ah = ah; remote_qpn = qpn; remote_qkey = ud_qkey }))

  unfoldable pub get_local_lid : ℕ → Prog S R ℕ
  get_local_lid context =
      function
        do ret ← invoke (query_port context); check (truthy ret) 0; ask λ os log. os.port_lid log
