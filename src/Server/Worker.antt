-- ===== src/Server/Worker.antt =====
-- `main_job` of src/server/kvstore.c: the loop of a worker thread.
use rdma_kv_store.Base.{ℕ, zero, suc, false, none, some, if◌then◌else◌, get_elem?, set}
use rdma_kv_store.Machine.{
  Run, Cmd, out_of_bounds, wild_pointer, done, fault, blocked, exited, out_of_fuel, pure, ◌>>=◌,
  ◌>>◌, require,
}
use rdma_kv_store.Common.{
  ConnectionType, tcp, rc, uc, ud, Method, unk, set as set_method, get, del, ping, dump, rst, exit,
  setopt, ok, Request, Response, zero_response,
}
use rdma_kv_store.Hash.State.{Store}
use rdma_kv_store.Hash.Table.{init_hashtable}
use rdma_kv_store.KvStore.Handlers.{set_request, get_request, del_request}
use rdma_kv_store.Server.{ht_capacity, Env, Session}
use rdma_kv_store.Server.Transport.{
  gets, modify, observe, is_connection_closed, prepare_for_next_request, send_response_to_client,
  ready_for_next_request,
}
use rdma_kv_store.Server.Dispatch.{recv_request}

-- A run on the hash table, inside a session.
abbrev pub in_session : {A : Type 0} → Session → Run Store A → Run Session A
in_session s (done a st) = done a (record s { store = st })
in_session s (fault f) = fault f
in_session s blocked = blocked
in_session s (exited n st) = exited n (record s { store = st })
in_session s out_of_fuel = out_of_fuel

abbrev pub on_store : {A : Type 0} → Cmd Store A → Cmd Session A
on_store c s = in_session s (c s.store)

-- How a round of the loop ends.
pub data Turn : Type 0 where
  -- `recv_request` gave NULL
  no_request : Turn
  -- the client asked to close the connection
  closing : Turn
  next_turn : Turn

-- `if (request->method != UNK) ready_for_next_request(client);`
unfoldable pub ready_unless_unk : Env → Method → Cmd Session (Unit {0})
unfolding ready_for_next_request
ready_unless_unk env unk s = done tt s
ready_unless_unk env _ s = ready_for_next_request env s.type s

module _ (fuel : ℕ) (env : Env) where
  -- What the handler of a method does to the table and the response.
  unfoldable pub handle : Method → ℕ → Request → Response → Cmd Store Response
  handle set_method moment request response = do
    (_, r) ← set_request fuel (env.set_allocs moment) request response
    pure r
  handle get moment request response = get_request fuel request response
  handle del moment request response = del_request fuel request response
  handle rst moment request response = do
    _ ← init_hashtable ht_capacity (env.init_allocs moment)
    pure (record response { code = ok })
  handle unk moment request response = pure response
  handle ping moment request response = pure response
  handle dump moment request response = pure response
  handle exit moment request response = pure response
  handle setopt moment request response = pure response

  -- The body of the loop after `recv_request` gave a request.
  unfoldable pub answer_request : Request → Cmd Session Turn
  unfolding handle ready_unless_unk
  answer_request request = do
    ready_unless_unk env request.method
    modify λ s. record s { response = zero_response }
    moment ← observe λ t. t
    response ← λ s. on_store (handle request.method moment request s.response) s
    modify λ s. record s { response = response }
    _ ← send_response_to_client env
    closed ← is_connection_closed
    pure (if closed then closing else next_turn)

  -- The body of the loop.
  unfoldable pub turn : Cmd Session Turn
  unfolding answer_request
  turn = do
    _ ← λ s. prepare_for_next_request env s.type s
    received ← recv_request env
    elim received [ none ↦ pure no_request | some request ↦ answer_request request ]

  -- `close_connection(client->tcp_client->socket_fd)`: on other connections the pointer was never
  -- set. What is freed after it is not used again.
  unfoldable pub close_client : ConnectionType → Cmd Session (Unit {0})
  close_client tcp s = done tt s
  close_client rc s = fault wild_pointer
  close_client uc s = fault wild_pointer
  close_client ud s = fault wild_pointer

  -- What follows a round of the loop.
  unfoldable pub after_turn : Cmd Session (Unit {0}) → Turn → Cmd Session (Unit {0})
  unfolding close_client
  after_turn next no_request s = done tt s
  after_turn next closing s = close_client s.type s
  after_turn next next_turn s = next s

  -- The loop, for at most a number of rounds.
  unfoldable pub job_loop : ℕ → Cmd Session (Unit {0})
  unfolding turn after_turn
  job_loop zero s = out_of_fuel
  job_loop (suc rounds) s = (turn >>= after_turn (job_loop rounds)) s

  -- `client->request->connection_close = 0`
  unfoldable pub clear_close : Cmd Session (Unit {0})
  clear_close = do
    b ← gets λ s. s.own
    first ← require out_of_bounds (get_elem? b.slots 0)
    modify λ s. record s {
      own = record s.own { slots = set s.own.slots 0 (record first { connection_close = false }) };
    }

  unfoldable pub main_job : ℕ → Cmd Session (Unit {0})
  unfolding clear_close job_loop
  main_job rounds = do clear_close; job_loop rounds
