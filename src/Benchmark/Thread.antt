-- ===== src/Benchmark/Thread.antt =====
-- What the thread of a benchmark client returns (src/benchmarking/instance.c), from the connection on.
use rdma_kv_store.Base.{
  ◌∷◌, ℕ, suc, ◌+◌, ◌*◌, ◌<◌, ◌≡◌, ◌≢◌, refl, inl, inr, some, List, arith, replicate,
  length-replicate,
}
use rdma_kv_store.Common.{ConnectionType, rc}
use rdma_kv_store.Verbs.{Call, Os, next, calloc}
use rdma_kv_store.Client.{Client}
use rdma_kv_store.Client.Exchange.{Exchanges, RcReady, Exchanges-rc}
use rdma_kv_store.Benchmark.Requests.{zero_request}
use rdma_kv_store.Benchmark.Fits.{IsSized}
use rdma_kv_store.Benchmark.Instance.{
  Operation, Instance, Outcome, request_addr, connect_instance, start_instance,
}
use rdma_kv_store.Benchmark.OneOp.{Mallocs, null_op, ne_zero}
use rdma_kv_store.Benchmark.Recorded.{Results, Recorded-zeroed, LoopReady, ops_loop-LoopEnds}

zero_request-IsSized : IsSized zero_request
zero_request-IsSized = record { key_width = refl; msg_width = refl }

-- Over a connection whose exchanges end.
start_instance-Results :
    (os : Os) (tries fuel num_ops : ℕ) (conn_t : ConnectionType) (log log0 : List Call)
    (s : Instance) (c : Client)
    → 0 < num_ops
    → num_ops < 2147483648
    → connect_instance conn_t os log s.client ≡ next tt log0 c
    → Exchanges Outcome os fuel c
    → request_addr c.conn_t c ≢ 0
    → c.instance_nr < 2147483648
    → Mallocs os
    → os.ptr log0 (calloc (num_ops * 16)) ≢ 0
    → (ops : List Operation) × (log' : List Call) × (s' : Instance) × (start_instance
          (suc tries)
          fuel
          conn_t
          num_ops
          os
          log
          s
        ≡ next (some ops) log' s')
      × Results num_ops ops
unfolding start_instance
start_instance-Results os tries fuel num_ops conn_t log log0 s c some_ops low connected exchanges
      buffer instance_low mallocs memory =
    let s1 : Instance = record {
      client = c;
      request = zero_request;
      ops = replicate num_ops null_op;
      count = 0;
    } in
    let ready : LoopReady os fuel num_ops s1 = record {
      exchanges = exchanges;
      sized = zero_request-IsSized;
      buffer = buffer;
      instance_low = instance_low;
      mallocs = mallocs;
      num_ops_low = low;
      more = some_ops;
      width = length-replicate num_ops null_op;
      recorded = Recorded-zeroed num_ops;
    } in
    rw (connected, ne_zero (os.ptr log0 (calloc (num_ops * 16))) memory)
      (elim (ops_loop-LoopEnds os tries fuel num_ops (num_ops + 1) (calloc (num_ops * 16) ∷ log0) s1
        ready (omega arith)) [
          | inl (log', s', run, recorded) ↦ rw run (s'.ops, log', s', refl, inl recorded)
          | inr (ops, log', s', run, k, early, stopped) ↦
              rw run (ops, log', s', refl, inr (k, early, stopped))
        ])

-- Once its RC connection is made, without blocking, the thread of a benchmark client ends, for a
-- number of operations from 1 to 2^31 - 1, and returns an array in which each of them has a start
-- and an end, or, where an error stopped it at one, in which those before have both, that one has
-- a start and an end that was never filled in, and the others are NULL. One try for each operation
-- is enough. It relies on memory at hand, a buffer for the request, an instance number below 2^31,
-- registered buffers, receives that can be posted, and a completion queue that makes progress.
pub start_instance-rc :
    (os : Os) (tries fuel b num_ops : ℕ) (log log0 : List Call) (s : Instance) (c : Client)
    → 0 < num_ops
    → num_ops < 2147483648
    → connect_instance rc os log s.client ≡ next tt log0 c
    → RcReady os fuel b c
    → request_addr c.conn_t c ≢ 0
    → c.instance_nr < 2147483648
    → Mallocs os
    → os.ptr log0 (calloc (num_ops * 16)) ≢ 0
    → (ops : List Operation) × (log' : List Call) × (s' : Instance) × (start_instance
          (suc tries)
          fuel
          rc
          num_ops
          os
          log
          s
        ≡ next (some ops) log' s')
      × Results num_ops ops
start_instance-rc os tries fuel b num_ops log log0 s c some_ops low connected ready =
    start_instance-Results os tries fuel num_ops rc log log0 s c some_ops low connected
      (Exchanges-rc os fuel b c ready)
