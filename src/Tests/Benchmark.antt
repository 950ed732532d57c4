-- ===== src/Tests/Benchmark.antt =====
-- The theorems on the benchmark's requests, at concrete inputs.
use rdma_kv_store.Base.{
  ℕ, ◌+◌, ◌≡◌, refl, codes, List, [], ◌∷◌, ◌++◌, some, arith, ◌==◌, if◌then◌else◌, length,
  replicate, pos, int_text,
}
use rdma_kv_store.Common.{get, set, Request, Response, zero_response}
use rdma_kv_store.Common.CString.{cstr}
use rdma_kv_store.Common.Printed.{sprintf}
use rdma_kv_store.Hash.Function.{bucket_of}
use rdma_kv_store.Hash.Chain.{lookup}
use rdma_kv_store.Hash.Model.{chain}
use rdma_kv_store.Hash.Init.{fresh_store}
use rdma_kv_store.Hash.Insert.{Allocates}
use rdma_kv_store.KvStore.Handlers.{SetAllocs}
use rdma_kv_store.KvStore.Set.{ok_response, AllocatesValue}
use rdma_kv_store.KvStore.Stored.{IsFree}
use rdma_kv_store.Server.{message, Env, Session}
use rdma_kv_store.Server.Worker.{job_loop}
use rdma_kv_store.Server.Turn.{Serving}
use rdma_kv_store.Benchmark.Requests.{
  zero_request, key_text, msg_text, make_get_request, make_set_request,
}
use rdma_kv_store.Benchmark.Texts.{key_text-injective}
use rdma_kv_store.Benchmark.Fits.{IsSized, Made, Carries, make_set_request-Made}
use rdma_kv_store.Benchmark.EndToEnd.{Answers, job_loop-benchmark}
use rdma_kv_store.Tests.Sessions.{env_of, session, session-Serving}
use rdma_kv_store.Tests.Fixture.{
  no_items, no_chains, locks, empty_store-Models, empty_chain, locks_idle,
}

abbrev blank : Request
blank = record zero_request { method = get }

blank-IsSized : IsSized blank
blank-IsSized = record { key_width = refl; msg_width = refl }

make_set_request-Made_example :
    (r' : Request) × (make_set_request 2 (pos 5) blank ≡ some r')
    × Made set 2 (key_text 2 (pos 5)) r'
    × Carries (msg_text 2 (pos 5)) r'
make_set_request-Made_example =
    make_set_request-Made 2 (pos 5) blank (omega arith) (omega arith) blank-IsSized

key_text-injective_example : ◌≡◌ {A = ℕ} 2 2 × (pos 5 ≡ pos 5)
key_text-injective_example = key_text-injective 2 2 (pos 5) (pos 5) refl

-- "Key from instance 2 count 1" in its array
abbrev key_2_1 : List ℕ
key_2_1 = codes "Key from instance 2 count 1" ++ replicate 37 0

abbrev set_2_1 : Request
set_2_1 = record blank {
  client_id = 2;
  method = set;
  key = key_2_1;
  key_len = 27;
  msg = codes "Message from instance 2 count 1" ++ replicate 225 0;
  msg_len = 31;
}

abbrev get_2_1 : Request
get_2_1 = record blank { client_id = 2; key = key_2_1; key_len = 27 }

made_set_2_1 : make_set_request 2 (pos 1) blank ≡ some set_2_1
unfolding make_set_request key_text msg_text int_text sprintf cstr
made_set_2_1 = refl

made_get_2_1 : make_get_request 2 (pos 1) blank ≡ some get_2_1
unfolding make_get_request key_text int_text sprintf cstr
made_get_2_1 = refl

-- The key text has 27 characters.
abbrev allocs : SetAllocs
allocs = record {
  entry = record { entry = 32; key_buf = some (replicate 28 7) };
  value_buf = some (replicate 256 0);
}

abbrev env : Env
env = record (env_of λ t. message (if t == 1 then set_2_1 else get_2_1)) {
  set_allocs = λ t. allocs;
}

allocs-AllocatesValue : AllocatesValue allocs
allocs-AllocatesValue = record { buf = replicate 256 0; value_buf = refl; size = refl }

allocs-Allocates : Allocates allocs.entry (fresh_store 1 no_items) (length (key_text 2 (pos 1)))
unfolding key_text int_text
allocs-Allocates = record {
  ne_null = λ e. absurd (omega arith);
  unused = refl;
  buf = replicate 28 7;
  key_buf = refl;
  size = refl;
}

no_entry : IsFree (lookup (key_text 2 (pos 1)) (chain no_chains (bucket_of (key_text 2 (pos 1)) 1)))
no_entry = rw (empty_chain (bucket_of (key_text 2 (pos 1)) 1)) (unfold lookup in tt)

job_loop-benchmark_example :
    (s' : Session) × (answer : Response) × (job_loop 4 env (2 + 3) session ≡ job_loop 4 env 3 s')
    × (s'.sent ≡ (7, answer) ∷ (7, ok_response zero_response) ∷ [])
    × Answers (msg_text 2 (pos 1)) answer
    × Serving s'
job_loop-benchmark_example =
    job_loop-benchmark 1 locks no_chains 4 env 3 session 2 (pos 1) blank blank set_2_1 get_2_1
      (omega arith) (omega arith) blank-IsSized blank-IsSized made_set_2_1 made_get_2_1
      session-Serving (refl, refl, refl, refl, tt, (refl, refl, refl, refl, tt, tt))
      empty_store-Models (λ i. rw (empty_chain i) (omega arith))
      (locks_idle (bucket_of (key_text 2 (pos 1)) 1)) allocs-AllocatesValue allocs-Allocates
      no_entry
