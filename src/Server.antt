-- ===== src/Server.antt =====
-- The state of a worker thread of the server: `struct client_info` and the part of
-- `struct ud_server_info` that it uses (src/server/server_utils.h), with the receive queue of the
-- queue pair, the hash table, and what was sent.
-- What the network, the kernel and `malloc` do is an argument: a value for each moment, a moment
-- being the number of such calls so far.
pub mod Transport
pub mod Dispatch
pub mod Worker
pub mod Ring
pub mod Turn
pub mod Sequence
pub mod TcpSequence
pub mod UdTurn
pub mod UdSequence
pub mod SetGet
pub mod Faults
pub mod Stale
pub mod Held
pub mod Pool
pub mod Tally
pub mod Order
pub mod Taken
use rdma_kv_store.Base.{ℕ, Bool, List, Option, ℤ}
use rdma_kv_store.Common.{ConnectionType, Request, Response}
use rdma_kv_store.Hash.State.{Store}
use rdma_kv_store.Hash.Table.{InitAllocs}
use rdma_kv_store.KvStore.Handlers.{SetAllocs}

abbrev pub request_backlog : ℕ
request_backlog = 5

abbrev pub max_clients : ℕ
max_clients = 1024

abbrev pub ht_capacity : ℕ
ht_capacity = 1024

-- What waiting for a request ends with: a message of the size of `struct request`, or a failure
-- that leaves `errno`.
pub data Arrival : Type 0 where
  message : Request → Arrival
  failed : ℕ → Arrival

-- The environment of a worker thread.
pub record Env : Type 0 where
  pub arrival : ℕ → Arrival
  -- what `ibv_post_recv` returns
  pub post_recv : ℕ → ℤ
  -- `errno` where a response cannot be sent, `none` where it is sent
  pub send_error : ℕ → Option ℕ
  -- the send buffer's size after `setsockopt` and `getsockopt`, `none` where one of them fails
  pub sndbuf : ℕ → Option ℕ
  pub set_allocs : ℕ → SetAllocs
  pub init_allocs : ℕ → InitAllocs

-- An array of request buffers that are posted to a receive queue, by their index, in order.
pub record Buffers : Type 0 where
  pub slots : List Request
  pub request_count : ℕ
  pub queue : List ℕ

-- Where a datagram goes: the address handle, and the number of the queue pair.
pub record Route : Type 0 where
  pub handle : ℕ
  pub qpn : ℕ

-- Where a response goes: to the client of the connection, or along a route.
pub data Destination : Type 0 where
  peer : ℕ → Destination
  route : Route → Destination

pub record Session : Type 0 where
  pub type : ConnectionType
  pub client_nr : ℕ
  -- `client->request`, `client->request_count` and the receive queue of the client's queue pair
  pub own : Buffers
  -- the same of `client->ud_client->ud_server`
  pub shared : Buffers
  -- `ud_server->lock`
  pub lock : Bool
  -- `ud_server->ah`, by the numbers that the clients give
  pub ah : List ℕ
  -- the `qpn` of each of `ud_server->remote_dgram_qp_attrs`, in the order of the connections
  pub remote_qpns : List ℕ
  -- `ud_client->client_handling`
  pub client_handling : ℕ
  pub response : Response
  pub store : Store
  -- the responses that were sent over a connection, newest first, each with the number of its client
  pub sent : List (ℕ × Response)
  -- the responses that were sent as datagrams, newest first
  pub datagrams : List (Route × Response)
  -- how many calls of the environment there were
  pub moment : ℕ
