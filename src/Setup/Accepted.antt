-- ===== src/Setup/Accepted.antt =====
-- Accepting an RC client as a whole: `rc_accept_new_connection` of src/server/rc_server_utils.c.
use rdma_kv_store.Base.{none, ℕ, ℤ, truthy, ◌≡◌, ◌≢◌, refl, ◌⊎◌, true, List, ◌∷◌, arith, length}
use rdma_kv_store.Machine.{wild_pointer}
use rdma_kv_store.Common.{Request}
use rdma_kv_store.Verbs.{faults, Call, Os, Flow, next, get_cm_event, ack_cm_event}
use rdma_kv_store.Server.{request_backlog}
use rdma_kv_store.Server.Ring.{InStep}
use rdma_kv_store.Setup.{Setup}
use rdma_kv_store.Setup.Resources.{setup_rc_client_resources}
use rdma_kv_store.Setup.Posting.{posted, numbers, buffer_posts}

-- The five buffers of an array of requests are posted, each once and in order, and the first is current.
abbrev pub IsPosted : Os → ℕ → List Call → Setup → Type 0
IsPosted os request log s =
    (qp : ℕ) × (mr : ℕ) × (posted log ≡ buffer_posts qp request (os.lkey mr) 5 0)
    × (s.request_count ≡ 0)

-- Once the connection request came, setting the resources up ends without a queue pair.
abbrev pub NoQueuePair : Os → List Call → Setup → Type 0
NoQueuePair os log s =
    (v : ℤ) × (log' : List Call) × (s' : Setup) × (setup_rc_client_resources {R = ℤ} os
        (get_cm_event s.rc_server.cm_event_channel ∷ log)
        (record s { rc_client = record s.rc_client { cm_client_id = (os.event log).id } })
      ≡ next v log' s')
    × (s'.rc_client.client_qp ≡ none)

-- How a call of `rc_accept_new_connection` ends: with an error, with the five buffers posted, or, where
-- there is no queue pair, in undefined behaviour.
abbrev pub RcAccepted : {R : Type 0} → Os → List Call → Setup → Flow Setup R ℤ → Type 0
RcAccepted os log s flow =
    ((r : ℤ) × (log' : List Call) × (s' : Setup) × (flow ≡ next r log' s')
      × ((truthy r ≡ true) ⊎ IsPosted os s.request log' s'))
    ⊎ ((flow ≡ faults wild_pointer) × NoQueuePair os log s)

-- An acknowledgement that fails sets errno.
abbrev pub AckSetsErrno : Os → Type 0
AckSetsErrno os =
    (log : List Call) (id : ℕ)
    → truthy (os.int log (ack_cm_event id)) ≡ true
    → os.errno (ack_cm_event id ∷ log) ≢ 0

-- With the five buffers posted, the ring is in step.
pub IsPosted-InStep :
    (os : Os) (request : ℕ) (log : List Call) (s : Setup) (slots : List Request)
    → IsPosted os request log s
    → length slots ≡ request_backlog
    → InStep
        (record { slots = slots; request_count = s.request_count; queue = numbers (posted log) })
IsPosted-InStep os request log s slots (qp, mr, order, start) wide = record {
  width = wide;
  inside = omega (arith, start);
  order = rw (start, order) refl;
}
