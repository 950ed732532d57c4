-- ===== src/Tests/Machines.antt =====
-- The theorems on work completions, queue pairs and posted buffers, at concrete inputs.
use rdma_kv_store.Base.{
  ℕ, some, none, ◌≡◌, ◌⊎◌, truthy, length, true, false, List, [], ◌∷◌, arith, ◌==◌, if◌then◌else◌,
  ℤ, pos,
}
use rdma_kv_store.Verbs.{
  qpt_rc, PeerAttr, QpInitAttr, Call, poll_cq, polled, other_event, connect_request, established,
  Os, next,
}
use rdma_kv_store.Verbs.Completion.{process_work_completion_events}
use rdma_kv_store.Verbs.Polling.{Progresses, WcResult, process_work_completion_events-WcResult}
use rdma_kv_store.Verbs.QueuePair.{init_attr, connect_qp}
use rdma_kv_store.Verbs.Connected.{qp_after, receiving, sending, connect_qp-Connected}
use rdma_kv_store.Setup.{Setup}
use rdma_kv_store.Hash.Init.{fresh_store}
use rdma_kv_store.Setup.Startup.{default_options, Main, take_clients}
use rdma_kv_store.Setup.Numbers.{KeepsNumbers, take_clients-KeepsNumbers}
use rdma_kv_store.Tests.Fixture.{no_items}

abbrev pub peer_attr : PeerAttr
peer_attr = record {
  gid_global_interface_id = 1;
  gid_global_subnet_prefix = 2;
  client_id = 0;
  lid = 3;
  qpn = 4;
  psn = 5;
}

abbrev other_peer : PeerAttr
other_peer = record peer_attr { lid = 6; qpn = 7; psn = 8 }

-- Every call succeeds, and a poll for completions gives one.
abbrev os : Os
os = record {
  int = λ log c. pos 0;
  ptr = λ log c. 1;
  errno = λ log. 0;
  poll = λ log c. elim c [
    | poll_cq cq n ↦ if n == 0 then polled [] else polled (record { status = 0; wr_id = 0 } ∷ [])
    | _ ↦ polled []
  ];
  event = λ log. record { status = pos 0; event = other_event; id = 1 };
  peer = λ log. peer_attr;
  verbs = λ id. 1;
  cm_qp = λ log id. 1;
  lkey = λ mr. 9;
  qp_num = λ qp. 1;
  gid = λ log. (1, 2);
  port_lid = λ log. 3;
  first_device = λ list. 1;
  leftover = λ log. pos 0;
}

os-Progresses : Progresses os 1 1
os-Progresses = record {
  bounded = λ log n cs e. ground arith;
  lively = λ log n some_wc. (0, omega arith, λ e. absurd (ground arith));
}

process_work_completion_events-WcResult_example :
    WcResult {S = ℕ} {R = ℤ} 1 7 (process_work_completion_events 1 2 1 1 false os [] 7)
process_work_completion_events-WcResult_example =
    process_work_completion_events-WcResult {S = ℕ} {R = ℤ} 1 2 1 1 1 os [] 7 (omega arith)
      os-Progresses (omega arith)

connect_qp-Connected_example :
    (r : ℤ) × (log' : List Call) × (connect_qp {S = ℕ} {R = ℤ} 1 peer_attr other_peer os [] 7
      ≡ next r log' 7)
    × ((qp_after os 1 init_attr log' ≡ sending peer_attr other_peer (qp_after os 1 init_attr []))
        ⊎ ((truthy r ≡ true)
            × ((qp_after os 1 init_attr log' ≡ qp_after os 1 init_attr [])
                ⊎ (qp_after os 1 init_attr log'
                    ≡ receiving other_peer (qp_after os 1 init_attr [])))))
connect_qp-Connected_example =
    connect_qp-Connected {S = ℕ} {R = ℤ} os [] 7 1 peer_attr other_peer init_attr

abbrev pub no_attr : QpInitAttr
no_attr = record { max_sge = 0; max_wr = 0; qp_type = qpt_rc; recv_cq = 0; send_cq = 0 }

abbrev setup : Setup
setup = record {
  tcp_socket = pos 0;
  rc_server = record { cm_event_channel = 1; cm_server_id = 1 };
  uc_server = record { socket_fd = pos 0; server_gid = (1, 2); context = 1 };
  ud_server = record {
    ud_qp = 0;
    ud_recv_cq = 0;
    ud_send_cq = 0;
    server_gid = (0, 0);
    local_dgram_qp_attrs = peer_attr;
    remote_dgram_qp_attrs = [];
    pd = 0;
    io_completion_channel_recv = 0;
    io_completion_channel_send = 0;
    qp_init_attr = no_attr;
    request_mr = 0;
    socket_fd = pos 0;
    client_counter = 0;
    request = 0;
    request_count = 0;
    ah = [];
  };
  request = 4096;
  request_count = 0;
  response = 8192;
  tcp_client_socket = pos 0;
  rc_client = record {
    pd = 1;
    io_completion_channel = 1;
    cq = 1;
    qp_init_attr = no_attr;
    cm_client_id = 1;
    client_qp = some 1;
    request_mr = 1;
    response_mr = 0;
  };
  uc_client = record {
    socket_fd = pos 0;
    pd = 0;
    io_completion_channel = 0;
    cq = 0;
    qp_init_attr = no_attr;
    client_qp = none;
    request_mr = 0;
    response_mr = 0;
    server_gid = (0, 0);
    context = 0;
    local_qp_attrs = peer_attr;
  };
  ud_client = record { socket_fd = pos 0; response_mr = 0 };
}

-- Every call succeeds, and the events are those of a connection.
abbrev connecting : Os
connecting = record os {
  event = λ log. record {
    status = pos 0;
    event = if length log == 0 then connect_request else established;
    id = 1;
  };
}

abbrev main_state : Main
main_state = record {
  options = default_options;
  setup = setup;
  store = fresh_store 1 no_items;
  client_nr = 0;
  threads = [];
}

take_clients-KeepsNumbers_example :
    KeepsNumbers {R = ℤ} {A = Unit {0}} (take_clients {R = ℤ} 2 os [] main_state)
take_clients-KeepsNumbers_example = take_clients-KeepsNumbers ℤ 2 os [] main_state tt
