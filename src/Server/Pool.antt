-- ===== src/Server/Pool.antt =====
-- Several workers of a UD server, one step after another: `ud_receive_header` of
-- src/server/ud_server_utils.c, `recv_request` and `ready_for_next_request` of
-- src/server/server_utils.c, and the loop of `main_job` of src/server/kvstore.c. Completions succeed,
-- and so do posts. A worker polls before it takes the lock, so several may wait for it at once.
use rdma_kv_store.Base.{
  ℕ, zero, suc, ◌%◌, ◌≡◌, ◌≢◌, Bool, true, false, List, [], ◌∷◌, ◌++◌, some, get_elem?, set, pos,
  replicate,
}
use rdma_kv_store.Common.{unk, Request}
use rdma_kv_store.Server.{max_clients, Buffers}
use rdma_kv_store.Server.Transport.{land_in, push_receive, advance}

-- Where a worker is in its round.
pub data Phase : Type 0 where
  polling : Phase
  -- it has a completion, and waits for the lock
  waiting : Phase
  -- it holds the lock and has the pointer to the current request
  holding : Phase
  -- it handles and answers the request of a buffer
  answering : ℕ → Phase

pub record Pool : Type 0 where
  -- the buffers of `struct ud_server_info`
  pub ring : Buffers
  pub lock : Bool
  -- the completions that nobody has polled
  pub completed : ℕ
  pub workers : List Phase
  -- the messages that have landed, and the requests that workers were led to by
  -- `get_current_request` under the lock, the first one first
  pub arrived : List Request
  pub taken : List Request

abbrev pub move : ℕ → Phase → Pool → Pool
move i phase p = record p { workers = set p.workers i phase }

pub data Step (p : Pool) : Pool → Type 0 where
  -- a message lands in the buffer that was posted first
  arrives :
      (r : Request) (b : ℕ) (rest : List ℕ)
      → p.ring.queue ≡ b ∷ rest
      → Step p (record p {
        ring = land_in r b rest p.ring;
        completed = suc p.completed;
        arrived = p.arrived ++ r ∷ [];
      })
  -- `process_work_completion_events`
  polls :
      (i n : ℕ)
      → get_elem? p.workers i ≡ some polling
      → p.completed ≡ suc n
      → Step p (record p { completed = n; workers = set p.workers i waiting })
  -- `pthread_mutex_lock`, and then `get_current_request`
  locks :
      (i : ℕ) (r : Request)
      → get_elem? p.workers i ≡ some waiting
      → p.lock ≡ false
      → get_elem? p.ring.slots p.ring.request_count ≡ some r
      → Step p
          (record p { lock = true; workers = set p.workers i holding; taken = p.taken ++ r ∷ [] })
  -- `ready_for_next_request`, where the request is not UNK
  readies :
      (i : ℕ) (r : Request)
      → get_elem? p.workers i ≡ some holding
      → get_elem? p.ring.slots p.ring.request_count ≡ some r
      → r.method ≢ unk
      → Step p (record p {
        ring = advance max_clients (push_receive (pos 0) p.ring);
        lock = false;
        workers = set p.workers i (answering p.ring.request_count);
      })
  -- an UNK request: the lock stays taken
  keeps :
      (i : ℕ) (r : Request)
      → get_elem? p.workers i ≡ some holding
      → get_elem? p.ring.slots p.ring.request_count ≡ some r
      → r.method ≡ unk
      → Step p (record p { workers = set p.workers i (answering p.ring.request_count) })
  -- the response is sent, and the next round begins
  answers :
      (i c : ℕ)
      → get_elem? p.workers i ≡ some (answering c)
      → Step p (record p { workers = set p.workers i polling })

-- Any number of steps.
pub data Steps (p : Pool) : Pool → Type 0 where
  stays : Steps p p
  then_step : {q r : Pool} → Steps p q → Step q r → Steps p r

-- `k`, `k + 1`, ... around the ring: `m` numbers.
abbrev pub around : ℕ → ℕ → List ℕ
around k zero = []
around k (suc m) = k % 1024 ∷ around (suc k) m

-- All buffers are posted in order, and every worker begins.
abbrev pub started_pool : List Request → ℕ → Pool
started_pool slots workers = record {
  ring = record { slots = slots; request_count = 0; queue = around 0 1024 };
  lock = false;
  completed = 0;
  workers = replicate workers polling;
  arrived = [];
  taken = [];
}
