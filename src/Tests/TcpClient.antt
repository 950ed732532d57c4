-- ===== src/Tests/TcpClient.antt =====
-- The thread of a benchmark client over TCP, at a concrete input.
use rdma_kv_store.Base.{List, [], pos}
use rdma_kv_store.Common.{tcp}
use rdma_kv_store.Verbs.{Call, socket, write_request, read_response, Os}
use rdma_kv_store.Setup.{sizeof_request, sizeof_response}
use rdma_kv_store.Client.{Client}
use rdma_kv_store.Benchmark.Requests.{zero_request}
use rdma_kv_store.Benchmark.Instance.{Instance, connect_instance}
use rdma_kv_store.Tests.Clients.{os, blank_client, log_of}

-- A socket that takes whole requests and gives whole responses.
abbrev tcp_os : Os
tcp_os = record os {
  int = λ log c. elim c [
    | socket ↦ pos 3
    | write_request fd ↦ pos sizeof_request
    | read_response fd ↦ pos sizeof_response
    | _ ↦ pos 0
  ];
}

abbrev tcp_client : Client
tcp_client = record blank_client { conn_t = tcp }

abbrev connected_tcp : Client
connected_tcp = record tcp_client {
  tcp_conn = record { socket = pos 3; request = 1; response = 1 };
}

abbrev tcp_log : List Call
tcp_log = log_of (connect_instance tcp tcp_os [] tcp_client)

abbrev tcp_thread : Instance
tcp_thread = record { client = tcp_client; request = zero_request; ops = []; count = 0 }
