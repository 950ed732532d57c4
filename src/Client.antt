-- ===== src/Client.antt =====
-- The connections of a client: `struct client_to_server_conn` of src/client/client.h, with the structures
-- of each connection type.
pub mod Tcp
pub mod Rc
pub mod Uc
pub mod Ud
pub mod Dispatch
pub mod Exchange
pub mod ExchangeTcp
pub mod Teardown
use rdma_kv_store.Base.{ℕ, zero, suc, Bool, Option, none, some, ℤ}
use rdma_kv_store.Machine.{null_pointer, wild_pointer}
use rdma_kv_store.Common.{ConnectionType}
use rdma_kv_store.Verbs.{PeerAttr, QpInitAttr, Prog, ask, pure, undefined, modify}

-- `sizeof(struct ud_response)`
abbrev pub sizeof_ud_response : ℕ
sizeof_ud_response = 312

-- `struct tcp_server_conn`. The buffers of all connections are their addresses.
pub record TcpConn : Type 0 where
  pub socket : ℤ
  pub request : ℕ
  pub response : ℕ

-- `struct rc_server_conn`
pub record RcConn : Type 0 where
  pub cm_event_channel : ℕ
  pub cm_client_id : ℕ
  pub pd : ℕ
  pub io_completion_channel : ℕ
  pub client_cq : ℕ
  pub qp_init_attr : QpInitAttr
  pub client_qp : ℕ
  pub client_request_mr : ℕ
  pub client_response_mr : ℕ
  pub request : ℕ
  pub response : ℕ

-- `struct uc_server_conn`. `none` is a pointer that nothing has set.
pub record UcConn : Type 0 where
  pub cm_event_channel : Option ℕ
  pub cm_client_id : Option ℕ
  pub pd : ℕ
  pub io_completion_channel : ℕ
  pub client_cq : ℕ
  pub qp_init_attr : QpInitAttr
  pub client_qp : ℕ
  pub client_request_mr : ℕ
  pub client_response_mr : ℕ
  pub request : ℕ
  pub response : ℕ
  pub server_gid : ℕ × ℕ
  pub local_qp_attrs : PeerAttr
  pub remote_qp_attrs : PeerAttr
  pub socket_fd : ℤ

-- `struct ud_server_conn`, as far as it is used
pub record UdConn : Type 0 where
  pub ud_qp : ℕ
  pub ud_cq : ℕ
  pub server_gid : ℕ × ℕ
  pub local_dgram_qp_attrs : PeerAttr
  pub remote_dgram_qp_attrs : PeerAttr
  pub pd : ℕ
  pub io_completion_channel : ℕ
  pub qp_init_attr : QpInitAttr
  pub cm_client_id : Option ℕ
  pub client_request_mr : ℕ
  pub client_response_mr : ℕ
  pub request : ℕ
  pub response : ℕ
  pub socket_fd : ℤ
  pub ah : ℕ
  pub client_id : ℕ

-- `struct client_to_server_conn`
pub record Client : Type 0 where
  pub conn_t : ConnectionType
  pub blocking : Bool
  pub instance_nr : ℕ
  pub tcp_conn : TcpConn
  pub rc_conn : RcConn
  pub uc_conn : UcConn
  pub ud_conn : UdConn

module _ {R : Type 0} where
  abbrev pub set_tcp : (TcpConn → TcpConn) → Prog Client R (Unit {0})
  set_tcp f = modify λ s. record s { tcp_conn = f s.tcp_conn }

  abbrev pub set_rc : (RcConn → RcConn) → Prog Client R (Unit {0})
  set_rc f = modify λ s. record s { rc_conn = f s.rc_conn }

  abbrev pub set_uc : (UcConn → UcConn) → Prog Client R (Unit {0})
  set_uc f = modify λ s. record s { uc_conn = f s.uc_conn }

  abbrev pub set_ud : (UdConn → UdConn) → Prog Client R (Unit {0})
  set_ud f = modify λ s. record s { ud_conn = f s.ud_conn }

  -- `mr->lkey`
  abbrev pub lkey_of : ℕ → Prog Client R ℕ
  lkey_of zero = undefined null_pointer
  lkey_of (suc mr) = ask λ os log. os.lkey (suc mr)
  -- A pointer that must have been set.
