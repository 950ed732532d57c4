-- ===== src/Tests/Workers.antt =====
-- The theorem on the workers of a UD server, for two workers that poll one after the other, and of which
-- the second takes the lock first.
use rdma_kv_store.Base.{◌≡◌, ◌≢◌, ◌≤◌, refl, true, List, [], ◌∷◌, ◌++◌, set, replicate}
use rdma_kv_store.Common.{get, unk, Request}
use rdma_kv_store.Server.Pool.{
  holding, answering, Pool, Steps, arrives, polls, locks, readies, stays, then_step, around,
  started_pool,
}
use rdma_kv_store.Server.Tally.{holds, held, tally}
use rdma_kv_store.Server.Taken.{taken-arrived}
use rdma_kv_store.Tests.Fixture.{key_k, key_m, request_of}

abbrev first : Request
first = request_of key_k 1 0

abbrev second : Request
second = request_of key_m 1 0

abbrev slots : List Request
slots = replicate 1024 (request_of key_k 0 0)

-- Both requests are taken, the first one by the second worker, which has left the lock.
abbrev both_taken : Pool
both_taken = record {
  ring = record {
    slots = set (set slots 0 first) 1 second;
    request_count = 1;
    queue = around 2 1022 ++ 0 ∷ [];
  };
  lock = true;
  completed = 0;
  workers = holding ∷ answering 0 ∷ [];
  arrived = first ∷ second ∷ [];
  taken = first ∷ second ∷ [];
}

get_not_unk : get ≢ unk
get_not_unk e = absurd cc

run : Steps (started_pool slots 2) both_taken
run =
    then_step
      (then_step
        (then_step
          (then_step
            (then_step
              (then_step (then_step stays (arrives first 0 (around 1 1023) refl))
                (arrives second 1 (around 2 1022) refl))
              (polls 0 1 refl refl))
            (polls 1 0 refl refl))
          (locks 1 first refl refl refl))
        (readies 1 first refl refl get_not_unk))
      (locks 0 second refl refl refl)

taken-arrived_example :
    (rest : List Request) × (both_taken.arrived ≡ both_taken.taken ++ rest)
    × (tally holds both_taken.workers ≤ held both_taken.lock)
taken-arrived_example = taken-arrived slots 2 both_taken refl run
