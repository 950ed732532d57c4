-- ===== src/Verbs.antt =====
-- The calls of libibverbs, librdmacm and the C library that set connections up, and programs made
-- of them. What a call gives is an argument, `Os`, a function of the call and of all calls before.
-- A pointer or handle is a number, 0 for NULL; a log of calls has the newest first.
pub mod Completion
pub mod Polling
pub mod Timeout
pub mod QueuePair
pub mod Connected
pub mod Buffers
use rdma_kv_store.Base.{ℕ, Bool, true, false, Option, none, some, if◌then◌else◌, List, ◌∷◌, ℤ, neg}
use rdma_kv_store.Machine.{Fault, wild_pointer}

-- `enum ibv_qp_state`, as far as the code uses it
pub data QpState : Type 0 where
  init rtr rts : QpState

-- `enum ibv_qp_attr_mask`, as far as the code uses it
pub data AttrMask : Type 0 where
  mask_state mask_pkey_index mask_port mask_qkey mask_access_flags : AttrMask
  mask_av mask_path_mtu mask_dest_qpn mask_rq_psn mask_sq_psn : AttrMask

-- `struct ibv_qp_attr`, as far as the code sets it; what it leaves out is 0.
pub record QpAttr : Type 0 where
  pub qp_state : QpState
  pub port_num : ℕ
  pub qkey : ℕ
  pub path_mtu : ℕ
  pub dest_qp_num : ℕ
  pub rq_psn : ℕ
  pub sq_psn : ℕ
  pub dlid : ℕ
  -- `ah_attr.port_num`
  pub av_port_num : ℕ

abbrev pub zero_attr : QpState → QpAttr
zero_attr state = record {
  qp_state = state;
  port_num = 0;
  qkey = 0;
  path_mtu = 0;
  dest_qp_num = 0;
  rq_psn = 0;
  sq_psn = 0;
  dlid = 0;
  av_port_num = 0;
}

pub data QpType : Type 0 where
  qpt_rc qpt_uc qpt_ud : QpType

-- `struct ibv_qp_init_attr`
pub record QpInitAttr : Type 0 where
  pub max_sge : ℕ
  pub max_wr : ℕ
  pub qp_type : QpType
  pub recv_cq : ℕ
  pub send_cq : ℕ

-- `struct qp_attr` of src/rdma_common.h
pub record PeerAttr : Type 0 where
  pub gid_global_interface_id : ℕ
  pub gid_global_subnet_prefix : ℕ
  pub client_id : ℕ
  pub lid : ℕ
  pub qpn : ℕ
  pub psn : ℕ

-- `struct ibv_recv_wr` or `struct ibv_send_wr` with its one scatter-gather element
pub record WorkRequest : Type 0 where
  pub wr_id : ℕ
  pub addr : ℕ
  pub size : ℕ
  pub lkey : ℕ

-- `wr.ud`
pub record UdRoute : Type 0 where
  pub ah : ℕ
  pub remote_qpn : ℕ
  pub remote_qkey : ℕ

-- `struct ibv_wc`
pub record Completed : Type 0 where
  -- 0 for IBV_WC_SUCCESS
  pub status : ℕ
  pub wr_id : ℕ

pub data CmEventType : Type 0 where
  connect_request established disconnected addr_resolved route_resolved other_event : CmEventType

-- `struct rdma_cm_event`
pub record CmEvent : Type 0 where
  pub status : ℤ
  pub event : CmEventType
  pub id : ℕ

-- A `struct rdma_cm_event *`.
pub data CmPtr : Type 0 where
  null_event : CmPtr
  -- an event that was acknowledged, which frees it
  freed_event : CmPtr
  live_event : CmEvent → CmPtr

pub data Call : Type 0 where
  alloc_pd create_comp_channel : ℕ → Call
  create_cq : ℕ → ℕ → ℕ → Call
  req_notify_cq get_cq_event ack_cq_event : ℕ → Call
  poll_cq : ℕ → ℕ → Call
  cm_create_qp create_qp : ℕ → ℕ → QpInitAttr → Call
  modify_qp : ℕ → QpAttr → List AttrMask → Call
  post_recv post_send : ℕ → WorkRequest → Call
  post_ud_send : ℕ → WorkRequest → UdRoute → Call
  reg_mr : ℕ → ℕ → ℕ → Bool → Call
  dereg_mr query_port query_gid open_device : ℕ → Call
  get_device_list create_event_channel socket sigpipe_ignored : Call
  create_ah : ℕ → ℕ → Call
  create_id bind_id get_cm_event ack_cm_event accept_id : ℕ → Call
  -- `rdma_ack_cm_event(NULL)`
  ack_null : Call
  listen_id : ℕ → ℕ → Call
  reuse_addr no_delay bind getsockname accept read_peer : ℤ → Call
  listen : ℤ → ℕ → Call
  write_peer : ℤ → PeerAttr → Call
  close_fd : ℤ → Call
  random : Call
  get_time : Call
  calloc : ℕ → Call
  lookup_host : Call
  -- the calls of the clients
  resolve_addr resolve_route connect_id disconnect_id : ℕ → Call
  destroy_qp destroy_id destroy_cq destroy_comp_channel dealloc_pd : ℕ → Call
  destroy_event_channel free : ℕ → Call
  rand malloc_timeval : Call
  -- its number is the time in microseconds
  time_of_day : Call
  connect write_request read_response : ℤ → Call

-- What `ibv_poll_cq` gives: an error, -(n + 1), or completions.
pub data Polled : Type 0 where
  poll_error : ℕ → Polled
  polled : List Completed → Polled

pub record Os : Type 0 where
  -- the result of a call that returns an `int`
  pub int : List Call → Call → ℤ
  -- the result of a call that returns a pointer or a number
  pub ptr : List Call → Call → ℕ
  pub errno : List Call → ℕ
  pub poll : List Call → Call → Polled
  -- the event that `rdma_get_cm_event` stores
  pub event : List Call → CmEvent
  -- what `read` stores of the attributes of the other side
  pub peer : List Call → PeerAttr
  -- fields of the objects that handles lead to: `cm_id->verbs`, `cm_id->qp`, `mr->lkey`,
  -- `qp->qp_num`, the two halves of a gid, the lid of a port, and the first device of a list
  pub verbs : ℕ → ℕ
  pub cm_qp : List Call → ℕ → ℕ
  pub lkey : ℕ → ℕ
  pub qp_num : ℕ → ℕ
  pub gid : List Call → ℕ × ℕ
  pub port_lid : List Call → ℕ
  pub first_device : ℕ → ℕ
  -- what a caller finds where a function ends without returning a value
  pub leftover : List Call → ℤ

-- How a statement ends, in a function that returns an `R`.
pub data Flow (S R A : Type 0) : Type 0 where
  next : A → List Call → S → Flow S R A
  leaves : R → List Call → S → Flow S R A
  exits : ℕ → List Call → S → Flow S R A
  faults : Fault → Flow S R A
  no_fuel : Flow S R A

abbrev pub Prog : Type 0 → Type 0 → Type 0 → Type 0
Prog S R A = Os → List Call → S → Flow S R A

module _ {S R A B : Type 0} where
  abbrev pub flow_then : Flow S R A → (A → Prog S R B) → Os → Flow S R B
  flow_then (next a log s) k os = k a os log s
  flow_then (leaves r log s) k os = leaves r log s
  flow_then (exits n log s) k os = exits n log s
  flow_then (faults f) k os = faults f
  flow_then no_fuel k os = no_fuel

  infixl 5 ◌>>=◌ ◌>>◌
  abbrev pub ◌>>=◌ : Prog S R A → (A → Prog S R B) → Prog S R B
  m >>= k = λ os log s. flow_then (m os log s) k os

  abbrev pub ◌>>◌ : Prog S R A → Prog S R B → Prog S R B
  m >> n = m >>= λ _. n

module _ {S R : Type 0} where
  abbrev pub pure : {A : Type 0} → A → Prog S R A
  pure a os log s = next a log s

  -- `return r;`
  abbrev pub leave : {A : Type 0} → R → Prog S R A
  leave r os log s = leaves r log s

  -- Undefined behaviour.
  abbrev pub undefined : {A : Type 0} → Fault → Prog S R A
  undefined f os log s = faults f

  -- A pointer that may never have been set.
  abbrev pub initialised : {A : Type 0} → Option A → Prog S R A
  initialised none = undefined wild_pointer
  initialised (some p) = pure p

  -- `exit(n);`
  abbrev pub exit_with : {A : Type 0} → ℕ → Prog S R A
  exit_with n os log s = exits n log s

  -- the macro `check`
  abbrev pub check : Bool → R → Prog S R (Unit {0})
  check c r = if c then leave r else pure tt

  abbrev pub invoke : Call → Prog S R ℤ
  invoke c os log s = next (os.int log c) (c ∷ log) s

  abbrev pub obtain : Call → Prog S R ℕ
  obtain c os log s = next (os.ptr log c) (c ∷ log) s

  -- What is known of the machine after the calls so far.
  abbrev pub ask : {A : Type 0} → (Os → List Call → A) → Prog S R A
  ask f os log s = next (f os log) log s

  -- `-errno`
  abbrev pub minus_errno : Prog S R ℤ
  minus_errno = ask λ os log. neg (os.errno log)

  abbrev pub gets : {A : Type 0} → (S → A) → Prog S R A
  gets f os log s = next (f s) log s

  abbrev pub modify : (S → S) → Prog S R (Unit {0})
  modify f os log s = next tt log (f s)

  abbrev pub function_end : {R' : Type 0} → Flow S R R → Flow S R' R
  function_end (next r log s) = next r log s
  function_end (leaves r log s) = next r log s
  function_end (exits n log s) = exits n log s
  function_end (faults f) = faults f
  function_end no_fuel = no_fuel

  -- The body of a function, as a call of it.
  abbrev pub function : {R' : Type 0} → Prog S R R → Prog S R' R
  function body os log s = function_end (body os log s)

-- A program on a part of the state.
module _ {S T R A : Type 0} where
  abbrev pub flow_within : (S → T) → Flow S R A → Flow T R A
  flow_within put (next a log s) = next a log (put s)
  flow_within put (leaves r log s) = leaves r log (put s)
  flow_within put (exits n log s) = exits n log (put s)
  flow_within put (faults f) = faults f
  flow_within put no_fuel = no_fuel

  abbrev pub within : (T → S) → (S → T → T) → Prog S R A → Prog T R A
  within view put m os log t = flow_within (λ s. put s t) (m os log (view t))

-- `check(c, -errno, ...)`
abbrev pub check_errno : {S : Type 0} → Bool → Prog S ℤ (Unit {0})
check_errno c = do e ← minus_errno; check c e
