-- ===== src/Setup.antt =====
-- The state that setting a connection up fills in: `struct server_info` and `struct client_info`
-- of src/server/server_utils.h, with the structures of each connection type.
pub mod Resources
pub mod Accept
pub mod Listen
pub mod Posting
pub mod Quiet
pub mod Accepted
pub mod Startup
pub mod Numbers
use rdma_kv_store.Base.{Option, ℕ, ◌+◌, ◌*◌, List, Bool, ℤ}
use rdma_kv_store.Verbs.{PeerAttr, QpInitAttr}

-- `sizeof(struct request)`, `sizeof(struct response)` and `sizeof(struct ud_request)` on a 64-bit
-- machine with a 4-byte `int`
abbrev pub sizeof_request : ℕ
sizeof_request = 352

abbrev pub sizeof_response : ℕ
sizeof_response = 272

abbrev pub sizeof_ud_request : ℕ
sizeof_ud_request = 392

abbrev pub cq_capacity : ℕ
cq_capacity = 16

abbrev pub max_sge : ℕ
max_sge = 2

abbrev pub max_wr : ℕ
max_wr = 8

-- `struct rc_client_connection`
pub record RcClient : Type 0 where
  pub pd : ℕ
  pub io_completion_channel : ℕ
  pub cq : ℕ
  pub qp_init_attr : QpInitAttr
  pub cm_client_id : ℕ
  -- not set where setting the resources up fails
  pub client_qp : Option ℕ
  pub request_mr : ℕ
  pub response_mr : ℕ

-- `struct uc_client_connection`, less the field that it does not use
pub record UcClient : Type 0 where
  pub socket_fd : ℤ
  pub pd : ℕ
  pub io_completion_channel : ℕ
  pub cq : ℕ
  pub qp_init_attr : QpInitAttr
  -- not set where setting the resources up fails
  pub client_qp : Option ℕ
  pub request_mr : ℕ
  pub response_mr : ℕ
  pub server_gid : ℕ × ℕ
  pub context : ℕ
  pub local_qp_attrs : PeerAttr

-- `struct rc_server_info`
pub record RcServer : Type 0 where
  pub cm_event_channel : ℕ
  pub cm_server_id : ℕ

-- `struct uc_server_info`, as far as it is used
pub record UcServer : Type 0 where
  pub socket_fd : ℤ
  pub server_gid : ℕ × ℕ
  pub context : ℕ

-- `struct ud_server_info`, as far as setting it up uses it
pub record UdServer : Type 0 where
  pub ud_qp : ℕ
  pub ud_recv_cq : ℕ
  pub ud_send_cq : ℕ
  pub server_gid : ℕ × ℕ
  pub local_dgram_qp_attrs : PeerAttr
  pub remote_dgram_qp_attrs : List PeerAttr
  pub pd : ℕ
  pub io_completion_channel_recv : ℕ
  pub io_completion_channel_send : ℕ
  pub qp_init_attr : QpInitAttr
  pub request_mr : ℕ
  pub socket_fd : ℤ
  pub client_counter : ℕ
  pub request : ℕ
  pub request_count : ℕ
  pub ah : List ℕ

-- `struct ud_client_connection`, as far as setting it up uses it
pub record UdClient : Type 0 where
  pub socket_fd : ℤ
  pub response_mr : ℕ

-- The structures of the server, and of the client that is being accepted. `request` and `response`
-- are the addresses of the buffers.
pub record Setup : Type 0 where
  pub tcp_socket : ℤ
  pub rc_server : RcServer
  pub uc_server : UcServer
  pub ud_server : UdServer
  pub request : ℕ
  pub request_count : ℕ
  pub response : ℕ
  pub tcp_client_socket : ℤ
  pub rc_client : RcClient
  pub uc_client : UcClient
  pub ud_client : UdClient

-- `&client->request[client->request_count]`
abbrev pub current_request_addr : Setup → ℕ
current_request_addr s = s.request + s.request_count * sizeof_request
