-- ===== src/Tests/Clients.antt =====
-- The theorems on the clients and on what the benchmark reports, at concrete inputs.
use rdma_kv_store.Base.{
  ℕ, ◌*◌, ◌≡◌, refl, false, true, List, [], ◌∷◌, ◌++◌, map, arith, ◌==◌, if◌then◌else◌, length, ℤ,
  pos, none, some,
}
use rdma_kv_store.Machine.{uninitialised, done, fault}
use rdma_kv_store.Common.{rc}
use rdma_kv_store.Verbs.{
  qpt_rc, Call, resolve_addr, resolve_route, connect_id, disconnect_id, poll_cq, get_time, polled,
  CmEventType, established, disconnected, addr_resolved, route_resolved, other_event, Os, Flow,
  next,
}
use rdma_kv_store.Verbs.Buffers.{
  ack_event, process_rdma_cm_event, rdma_buffer_register, post_recieve,
}
use rdma_kv_store.Verbs.Polling.{Progresses}
use rdma_kv_store.Setup.Resources.{connected_attr}
use rdma_kv_store.Client.{Client}
use rdma_kv_store.Client.Rc.{
  cm_step, rc_pre_post_receive_response, client_prepare_connection, client_connect_to_server,
  client_disconnect_and_clean,
}
use rdma_kv_store.Client.Exchange.{RcReady}
use rdma_kv_store.Client.Teardown.{torn_down, awaited, client_disconnect_and_clean-torn_down}
use rdma_kv_store.Benchmark.Requests.{zero_request}
use rdma_kv_store.Benchmark.Instance.{
  Operation, Instance, Outcome, connect_instance, start_instance,
}
use rdma_kv_store.Benchmark.OneOp.{started, timed}
use rdma_kv_store.Benchmark.Recorded.{Results}
use rdma_kv_store.Benchmark.Thread.{start_instance-rc}
use rdma_kv_store.Benchmark.Report.{Config, minus, rate_of, file_name, data_processing}
use rdma_kv_store.Benchmark.Processed.{
  timed_op, row_of, last_of, data_processing-Recorded, data_processing-Stopped,
}
use rdma_kv_store.Tests.Machines.{peer_attr, no_attr}

-- The event that the last call leads to.
abbrev event_of : List Call → CmEventType
event_of [] = other_event
event_of (resolve_addr id ∷ log) = addr_resolved
event_of (resolve_route id ∷ log) = route_resolved
event_of (connect_id id ∷ log) = established
event_of (disconnect_id id ∷ log) = disconnected
event_of (_ ∷ log) = other_event

-- Every call succeeds, a poll for completions gives one, and every call takes 100 ms.
abbrev pub os : Os
os = record {
  int = λ log c. pos 0;
  ptr = λ log c. elim c [ get_time ↦ 100 * length log | _ ↦ 1 ];
  errno = λ log. 0;
  poll = λ log c. elim c [
    | poll_cq cq n ↦ if n == 0 then polled [] else polled (record { status = 0; wr_id = 0 } ∷ [])
    | _ ↦ polled []
  ];
  event = λ log. record { status = pos 0; event = event_of log; id = 1 };
  peer = λ log. peer_attr;
  verbs = λ id. 1;
  cm_qp = λ log id. 1;
  lkey = λ mr. 9;
  qp_num = λ qp. 1;
  gid = λ log. (1, 2);
  port_lid = λ log. 3;
  first_device = λ list. 1;
  leftover = λ log. pos 0;
}

os-Progresses : Progresses os 1 1
os-Progresses = record {
  bounded = λ log n cs e. ground arith;
  lively = λ log n some_wc. (0, omega arith, λ e. absurd (ground arith));
}

-- A client of every kind with nothing set, but for an RC connection that has been made.
abbrev connected : Client
connected = record {
  conn_t = rc;
  blocking = false;
  instance_nr = 2;
  tcp_conn = record { socket = pos 0; request = 0; response = 0 };
  rc_conn = record {
    cm_event_channel = 1;
    cm_client_id = 1;
    pd = 1;
    io_completion_channel = 1;
    client_cq = 1;
    qp_init_attr = connected_attr qpt_rc 1;
    client_qp = 1;
    client_request_mr = 1;
    client_response_mr = 1;
    request = 1;
    response = 1;
  };
  uc_conn = record {
    cm_event_channel = none;
    cm_client_id = none;
    pd = 0;
    io_completion_channel = 0;
    client_cq = 0;
    qp_init_attr = no_attr;
    client_qp = 0;
    client_request_mr = 0;
    client_response_mr = 0;
    request = 0;
    response = 0;
    server_gid = (0, 0);
    local_qp_attrs = peer_attr;
    remote_qp_attrs = peer_attr;
    socket_fd = pos 0;
  };
  ud_conn = record {
    ud_qp = 0;
    ud_cq = 0;
    server_gid = (0, 0);
    local_dgram_qp_attrs = peer_attr;
    remote_dgram_qp_attrs = peer_attr;
    pd = 0;
    io_completion_channel = 0;
    qp_init_attr = no_attr;
    cm_client_id = none;
    client_request_mr = 0;
    client_response_mr = 0;
    request = 0;
    response = 0;
    socket_fd = pos 0;
    ah = 0;
    client_id = 0;
  };
}

client_disconnect_and_clean-torn_down_example :
    client_disconnect_and_clean {R = ℤ} os [] connected
    ≡ torn_down connected.rc_conn [] connected (awaited os connected.rc_conn [])
client_disconnect_and_clean-torn_down_example =
    client_disconnect_and_clean-torn_down {R = ℤ} os [] connected (λ e. absurd (omega arith))

-- Before the connection is made.
abbrev pub blank_client : Client
blank_client = record connected {
  rc_conn = record {
    cm_event_channel = 0;
    cm_client_id = 0;
    pd = 0;
    io_completion_channel = 0;
    client_cq = 0;
    qp_init_attr = no_attr;
    client_qp = 0;
    client_request_mr = 0;
    client_response_mr = 0;
    request = 0;
    response = 0;
  };
}

connected-RcReady : RcReady os 1 1 connected
connected-RcReady = record {
  is_rc = refl;
  spins = refl;
  request_mr = λ e. absurd (omega arith);
  response_mr = λ e. absurd (omega arith);
  progress = os-Progresses;
  posts = λ log wr. refl;
  enough = omega arith;
}

abbrev pub log_of : Flow Client Outcome (Unit {0}) → List Call
log_of (next a log s) = log
log_of _ = []

-- The calls that make the connection.
abbrev made_log : List Call
made_log = log_of (connect_instance rc os [] blank_client)

makes_connection : connect_instance rc os [] blank_client ≡ next tt made_log connected
unfolding connect_instance client_prepare_connection client_connect_to_server cm_step
    rc_pre_post_receive_response process_rdma_cm_event rdma_buffer_register post_recieve ack_event
makes_connection = refl

abbrev thread : Instance
thread = record { client = blank_client; request = zero_request; ops = []; count = 0 }

start_instance-rc_example :
    (ops : List Operation) × (log' : List Call) × (s' : Instance) × (start_instance 1 1 rc 2 os []
        thread
      ≡ next (some ops) log' s')
    × Results 2 ops
start_instance-rc_example =
    start_instance-rc os 0 1 1 2 [] made_log thread connected (omega arith) (omega arith)
      makes_connection connected-RcReady (λ e. absurd (omega arith)) (omega arith)
      (λ log e. absurd (omega arith)) (λ e. absurd (omega arith))

abbrev config : Config
config = record {
  connection_type = rc;
  num_ops = 2;
  override = false;
  clients = 1;
  save = true;
  blocking = false;
}

abbrev two_ops : List Operation
two_ops = timed 10 15 ∷ timed 20 40 ∷ []

data_processing-Recorded_example :
    (t : ℕ × ℕ) × (ts : List (ℕ × ℕ)) × (rest : List Operation) × (map timed_op (t ∷ ts) ++ rest
      ≡ two_ops)
    × (length (t ∷ ts) ≡ 2)
    × (data_processing config true two_ops 0 []
        ≡ done tt (
            record {
              client_number = 0;
              count = 2;
              ops_sec = rate_of 2 (minus (last_of t ts).1 t.0);
              file = some (file_name config 0 2, map row_of (t ∷ ts));
            }
            ∷ []))
data_processing-Recorded_example =
    data_processing-Recorded config 0 two_ops [] (omega arith) (omega arith) (omega arith)
      (omega arith) (omega arith) ((10, 15, refl), ((20, 40, refl), tt))

data_processing-Stopped_example :
    data_processing config true (timed 10 15 ∷ started 20 ∷ []) 0 [] ≡ fault uninitialised
data_processing-Stopped_example =
    data_processing-Stopped config 0 (timed 10 15 ∷ started 20 ∷ []) [] (omega arith) (omega arith)
      (omega arith) (omega arith) 1 (omega arith) ((10, 15, refl), ((20, refl), tt))
