-- ===== src/Benchmark/Instance.antt =====
-- A benchmark client: `start_instance` of src/benchmarking/instance.c. The retries of an operation and
-- the operations run on fuel.
use rdma_kv_store.Base.{
  ℕ, zero, suc, ◌+◌, ◌*◌, ◌%◌, Bool, Option, none, some, List, ◌==◌, ltb, leb, if◌then◌else◌,
  replicate, get_elem?, set, pos, truthy, is_neg,
}
use rdma_kv_store.Machine.{int_overflow, null_pointer, out_of_bounds}
use rdma_kv_store.Common.{ConnectionType, tcp, rc, uc, ud, Request}
use rdma_kv_store.Verbs.{
  calloc, rand, malloc_timeval, time_of_day, no_fuel, Prog, ◌>>=◌, ◌>>◌, pure, check, obtain, gets,
  modify, undefined, function, within,
}
use rdma_kv_store.Setup.{sizeof_request, sizeof_response}
use rdma_kv_store.Client.{sizeof_ud_response, Client, set_rc, set_uc, set_ud}
use rdma_kv_store.Client.Tcp.{tcp_client_prepare_connection, tcp_client_connect_to_server}
use rdma_kv_store.Client.Rc.{client_prepare_connection, client_connect_to_server}
use rdma_kv_store.Client.Uc.{uc_client_prepare_connection, uc_client_connect_to_server}
use rdma_kv_store.Client.Ud.{ud_prepare_client, ud_client_connect_to_server}
use rdma_kv_store.Client.Dispatch.{send_request, receive_response}
use rdma_kv_store.Benchmark.Requests.{zero_request, pred_ℤ, make_get_request, make_set_request}

-- A `struct timeval *`: NULL, a structure with nothing in it yet, or a time in microseconds.
pub data Stamp : Type 0 where
  null_stamp : Stamp
  unset : Stamp
  at : ℕ → Stamp

-- `struct operation`
pub record Operation : Type 0 where
  pub start : Stamp
  pub end_ : Stamp

-- The client, the contents of its request buffer, of which NULL has none, and the local variables of `start_instance`.
pub record Instance : Type 0 where
  pub client : Client
  pub request : Request
  pub ops : List Operation
  pub count : ℕ

-- `malloc(sizeof(struct timeval))`
abbrev pub new_stamp : ℕ → Stamp
new_stamp zero = null_stamp
new_stamp (suc p) = unset

-- `gettimeofday(stamp, NULL)`, which does nothing for NULL
abbrev pub stamped : ℕ → Stamp → Stamp
stamped now null_stamp = null_stamp
stamped now unset = at now
stamped now (at t) = at now

-- What the thread returns: NULL or its operations.
abbrev pub Outcome : Type 0
Outcome = Option (List Operation)

-- A function of the client.
abbrev pub on_client : {A : Type 0} → Prog Client Outcome A → Prog Instance Outcome A
on_client = within (λ s. s.client) (λ c s. record s { client = c })

-- Preparing a connection and connecting it. The results for TCP are not looked at.
unfoldable pub connect_instance : ConnectionType → Prog Client Outcome (Unit {0})
connect_instance tcp = do
  _ ← tcp_client_prepare_connection
  _ ← tcp_client_connect_to_server
  pure tt
connect_instance rc = do
  request ← obtain (calloc sizeof_request)
  response ← obtain (calloc sizeof_response)
  _ ← obtain (calloc sizeof_response)
  set_rc λ c. record c { request = request; response = response }
  prepared ← client_prepare_connection
  check (truthy prepared) none
  connected ← client_connect_to_server
  check (truthy connected) none
connect_instance uc = do
  request ← obtain (calloc sizeof_request)
  response ← obtain (calloc sizeof_response)
  _ ← obtain (calloc sizeof_response)
  set_uc λ c. record c { request = request; response = response }
  prepared ← uc_client_prepare_connection
  check (truthy prepared) none
  connected ← uc_client_connect_to_server
  check (truthy connected) none
connect_instance ud = do
  request ← obtain (calloc sizeof_request)
  response ← obtain (calloc sizeof_ud_response)
  _ ← obtain (calloc sizeof_ud_response)
  nr ← gets λ s. s.instance_nr
  set_ud λ c. record c { request = request; response = response; client_id = nr }
  prepared ← ud_prepare_client
  check (truthy prepared) none
  connected ← ud_client_connect_to_server
  check (truthy connected) none

-- `return ops` where a check fails
abbrev pub check_ops : Bool → Prog Instance Outcome (Unit {0})
check_ops c = do ops ← gets λ s. s.ops; check c (some ops)

-- The request printed in the buffer.
abbrev pub put_request : Option Request → Prog Instance Outcome (Unit {0})
put_request none = undefined out_of_bounds
put_request (some r) = modify λ s. record s { request = r }

-- `ops[count]`
abbrev pub op_at : Option Operation → Prog Instance Outcome Operation
op_at none = undefined out_of_bounds
op_at (some op) = pure op

-- `count + 1` on an `int`
unfoldable pub int_suc : ℕ → Prog Instance Outcome ℕ
int_suc n = if ltb (suc n) 2147483648 then pure (suc n) else undefined int_overflow

unfoldable pub update_op : (Operation → Operation) → Prog Instance Outcome (Unit {0})
update_op f = do
  s ← gets λ s. s
  op ← op_at (get_elem? s.ops s.count)
  modify λ s. record s { ops = set s.ops s.count (f op) }

-- The request buffer of the connection.
abbrev pub request_addr : ConnectionType → Client → ℕ
request_addr tcp c = c.tcp_conn.request
request_addr rc c = c.rc_conn.request
request_addr uc c = c.uc_conn.request
request_addr ud c = c.ud_conn.request

-- 6 of 100 requests are a SET, of the key with the number of the operation; the others are a GET of the
-- key with a number from -1 on.
unfoldable pub choose_request : Prog Instance Outcome (Unit {0})
unfolding int_suc
choose_request = do
  dice ← obtain rand
  s ← gets λ s. s
  if request_addr s.client.conn_t s.client == 0 then undefined null_pointer else pure tt
  if leb (dice % 100) 5
      then put_request (make_set_request s.client.instance_nr (pos s.count) s.request)
      else (do
        pick ← obtain rand
        bound ← int_suc s.count
        put_request (make_get_request s.client.instance_nr (pred_ℤ (pos (pick % bound))) s.request))

-- `while (returned == 0) { ... }`
unfoldable pub attempts : ℕ → ℕ → Prog Instance Outcome (Unit {0})
attempts zero fuel os log s = no_fuel
attempts (suc tries) fuel os log s =
    (do
      sent ← on_client (send_request fuel)
      check_ops (truthy sent)
      received ← on_client (receive_response fuel)
      check_ops (is_neg received)
      if truthy received then pure tt else attempts tries fuel)
      os log s

-- The body of `do { ... } while (count < num_ops)`
unfoldable pub one_op : ℕ → ℕ → Prog Instance Outcome (Unit {0})
unfolding choose_request update_op attempts int_suc
one_op tries fuel = do
  choose_request
  start ← obtain malloc_timeval
  update_op λ op. record op { start = new_stamp start }
  end_ ← obtain malloc_timeval
  update_op λ op. record op { end_ = new_stamp end_ }
  began ← obtain time_of_day
  update_op λ op. record op { start = stamped began op.start }
  attempts tries fuel
  ended ← obtain time_of_day
  update_op λ op. record op { end_ = stamped ended op.end_ }
  s ← gets λ s. s
  next ← int_suc s.count
  modify λ s. record s { count = next }

unfoldable pub ops_loop : ℕ → ℕ → ℕ → ℕ → Prog Instance Outcome (Unit {0})
unfolding one_op
ops_loop zero tries fuel num_ops os log s = no_fuel
ops_loop (suc rounds) tries fuel num_ops os log s =
    (do
      one_op tries fuel
      count ← gets λ s. s.count
      if ltb count num_ops then ops_loop rounds tries fuel num_ops else pure tt)
      os log s

-- The thread, for a connection type and a number of operations.
unfoldable pub start_instance : ℕ → ℕ → ConnectionType → ℕ → Prog Instance Outcome Outcome
unfolding connect_instance ops_loop
start_instance tries fuel conn_t num_ops = function do
  on_client (connect_instance conn_t)
  ops ← obtain (calloc (num_ops * 16))
  modify λ s. record s {
    request = zero_request;
    ops = replicate num_ops (record { start = null_stamp; end_ = null_stamp });
    count = 0;
  }
  if ops == 0 then undefined null_pointer else pure tt
  ops_loop (num_ops + 1) tries fuel num_ops
  done ← gets λ s. s.ops
  pure (some done)
