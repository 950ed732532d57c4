-- ===== src/Setup/Resources.antt =====
-- The resources of an RC or UC connection, and posting its receives:
-- src/server/rc_server_utils.c and src/server/uc_server_utils.c.
use rdma_kv_store.Base.{some, ℕ, zero, suc, ◌%◌, ◌==◌, ℤ, pos, neg, truthy}
use rdma_kv_store.Verbs.{
  initialised, QpType, qpt_rc, qpt_uc, QpInitAttr, alloc_pd, create_comp_channel, create_cq,
  req_notify_cq, cm_create_qp, create_qp, random, Prog, ◌>>=◌, ◌>>◌, pure, check, check_errno,
  invoke, obtain, ask, gets, modify, function,
}
use rdma_kv_store.Verbs.Buffers.{post_recieve, get_local_lid}
use rdma_kv_store.Verbs.QueuePair.{uc_set_init_qp}
use rdma_kv_store.Setup.{
  sizeof_request, cq_capacity, max_sge, max_wr, RcClient, UcClient, Setup, current_request_addr,
}

-- `-EINVAL`
abbrev pub minus_einval : ℤ
minus_einval = neg 22

abbrev pub set_rc : {R : Type 0} → (RcClient → RcClient) → Prog Setup R (Unit {0})
set_rc f = modify λ s. record s { rc_client = f s.rc_client }

abbrev pub set_uc : {R : Type 0} → (UcClient → UcClient) → Prog Setup R (Unit {0})
set_uc f = modify λ s. record s { uc_client = f s.uc_client }

abbrev pub connected_attr : QpType → ℕ → QpInitAttr
connected_attr t cq = record {
  max_sge = max_sge;
  max_wr = max_wr;
  qp_type = t;
  recv_cq = cq;
  send_cq = cq;
}

module _ {R : Type 0} where
  unfoldable pub setup_rc_client_resources : Prog Setup R ℤ
  setup_rc_client_resources = function do
    id ← gets λ s. s.rc_client.cm_client_id
    check (id == 0) minus_einval
    context ← ask λ os log. os.verbs id
    pd ← obtain (alloc_pd context)
    set_rc λ c. record c { pd = pd }
    check_errno (pd == 0)
    channel ← obtain (create_comp_channel context)
    set_rc λ c. record c { io_completion_channel = channel }
    check_errno (channel == 0)
    cq ← obtain (create_cq context cq_capacity channel)
    set_rc λ c. record c { cq = cq }
    check_errno (cq == 0)
    notified ← invoke (req_notify_cq cq)
    check_errno (truthy notified)
    set_rc λ c. record c { qp_init_attr = connected_attr qpt_rc cq }
    ret ← invoke (cm_create_qp id pd (connected_attr qpt_rc cq))
    check_errno (truthy ret)
    qp ← ask λ os log. os.cm_qp log id
    set_rc λ c. record c { client_qp = some qp }
    pure ret

  -- The result of `uc_set_init_qp` is not looked at.
  unfoldable pub setup_uc_client_resources : Prog Setup R ℤ
  setup_uc_client_resources = function do
    context ← gets λ s. s.uc_client.context
    pd ← obtain (alloc_pd context)
    set_uc λ c. record c { pd = pd }
    check_errno (pd == 0)
    channel ← obtain (create_comp_channel context)
    set_uc λ c. record c { io_completion_channel = channel }
    check_errno (channel == 0)
    cq ← obtain (create_cq context cq_capacity channel)
    set_uc λ c. record c { cq = cq }
    check_errno (cq == 0)
    ret ← invoke (req_notify_cq cq)
    check_errno (truthy ret)
    set_uc λ c. record c { qp_init_attr = connected_attr qpt_uc cq }
    qp ← obtain (create_qp pd 0 (connected_attr qpt_uc cq))
    set_uc λ c. record c { client_qp = some qp }
    check_errno (qp == 0)
    _ ← uc_set_init_qp qp
    lid ← get_local_lid context
    qpn ← ask λ os log. os.qp_num qp
    psn ← obtain random
    set_uc λ c. record c {
      local_qp_attrs = record c.local_qp_attrs {
        gid_global_interface_id = c.server_gid.1;
        gid_global_subnet_prefix = c.server_gid.0;
        lid = lid;
        qpn = qpn;
        psn = psn % 16777216;
      };
    }
    pure ret

  unfoldable pub rc_post_receive : Prog Setup R ℤ
  rc_post_receive = do
    s ← gets λ s. s
    key ← ask λ os log. os.lkey s.rc_client.request_mr
    qp ← initialised s.rc_client.client_qp
    post_recieve sizeof_request key s.request_count qp (current_request_addr s)

  unfoldable pub uc_post_receive : Prog Setup R ℤ
  uc_post_receive = do
    s ← gets λ s. s
    key ← ask λ os log. os.lkey s.uc_client.request_mr
    qp ← initialised s.uc_client.client_qp
    post_recieve sizeof_request key s.request_count qp (current_request_addr s)

-- `for (int i = 0; i < n; i++) { client->request_count = i; ret = post(client); check(ret, ret, ...) }`
-- from `i` on, with the last result.
unfoldable pub post_all : ℕ → ℕ → Prog Setup ℤ ℤ → Prog Setup ℤ ℤ
post_all zero i post = pure (pos 0)
post_all (suc n) i post = do
  modify λ s. record s { request_count = i }
  ret ← post
  check (truthy ret) ret
  post_all n (suc i) post
