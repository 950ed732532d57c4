-- ===== src/Benchmark/EndToEnd.antt =====
-- The benchmark's SET and GET of one key (src/benchmarking/instance.c), answered by the loop of the
-- worker thread (src/server/kvstore.c).
use rdma_kv_store.Base.{
  ℕ, zero, suc, ◌+◌, ◌<◌, ◌≡◌, refl, Bool, false, some, List, [], ◌∷◌, arith, length, drop,
  replicate, get_or, ℤ,
}
use rdma_kv_store.Common.{Request, Response, ok, zero_response}
use rdma_kv_store.Common.CString.{cstr}
use rdma_kv_store.Common.Printed.{cstr-text}
use rdma_kv_store.Hash.Function.{bucket_of}
use rdma_kv_store.Hash.Chain.{lookup}
use rdma_kv_store.Hash.Model.{Chains, chain, Models}
use rdma_kv_store.Hash.Insert.{Allocates}
use rdma_kv_store.KvStore.Set.{ok_response, AllocatesValue}
use rdma_kv_store.KvStore.Stored.{IsFree}
use rdma_kv_store.KvStore.Session.{value_response}
use rdma_kv_store.Server.{Env, Session}
use rdma_kv_store.Server.Worker.{job_loop}
use rdma_kv_store.Server.Turn.{Serving}
use rdma_kv_store.Server.Sequence.{Arrives}
use rdma_kv_store.Server.SetGet.{job_loop-set_get}
use rdma_kv_store.Benchmark.Requests.{key_text, msg_text, make_get_request, make_set_request}
use rdma_kv_store.Benchmark.Texts.{Fits32, no_nul-msg_text, length-msg_text}
use rdma_kv_store.Benchmark.Fits.{IsSized, Carries, known_get, known_set}

-- The response that carries a text: OK, the text's length, and the text as a C string.
pub record Answers (t : List ℕ) (a : Response) : Type 0 where
  pub code : a.code ≡ ok
  pub msg_len : a.msg_len ≡ length t
  pub msg_text : cstr a.msg ≡ some t

drop-replicate : (n m : ℕ) → n < m → (rest : List ℕ) × (drop n (replicate m 0) ≡ 0 ∷ rest)
drop-replicate n zero h = absurd (omega arith)
drop-replicate zero (suc m) h = (replicate m 0, refl)
drop-replicate (suc n) (suc m) h = drop-replicate n m (omega arith)

value_response-Answers :
    (i : ℕ) (c : ℤ) (request : Request)
    → i < 2147483648
    → Fits32 c
    → Carries (msg_text i c) request
    → Answers (msg_text i c) (value_response request.msg request.msg_len zero_response)
value_response-Answers i c request low narrow carries =
    let t = msg_text i c in
    let short = length-msg_text i c low narrow in
    let (rest, zeros) = drop-replicate (length t) 256 (omega arith) in
    record {
      code = refl;
      msg_len = carries.msg_len;
      msg_text =
          rw (carries.msg_bytes, carries.msg_len, zeros) (cstr-text t rest (no_nul-msg_text i c));
    }

-- On an RC or UC connection in step, the loop of the worker thread answers the SET that
-- make_set_request makes for an instance and a count, and then the GET that make_get_request makes
-- for the same, with OK and with an OK that carries the text 'Message from instance i count c',
-- NUL-terminated, and its length. It relies on what job_loop-set_get relies on: posts and sends
-- that succeed, requests that arrive first and do not close the connection, a well-formed table
-- with a free mutex, fuel for one entry more, memory at hand, and an entry of the key, if there is
-- one, that nobody holds; and on an instance number below 2^31, a 32-bit count, and requests whose
-- arrays have their sizes.
pub job_loop-benchmark :
    (n : ℕ) (ls : List Bool) (cs : Chains) (fuel : ℕ) (env : Env) (rounds : ℕ) (s : Session) (i : ℕ)
    (c : ℤ) (r q request question : Request)
    → i < 2147483648
    → Fits32 c
    → IsSized r
    → IsSized q
    → make_set_request i c r ≡ some request
    → make_get_request i c q ≡ some question
    → Serving s
    → Arrives env s.moment (request ∷ question ∷ [])
    → Models n ls cs s.store
    → ((i : ℕ) → length (chain cs i) + 1 < fuel)
    → get_or ls (bucket_of (key_text i c) n) false ≡ false
    → AllocatesValue (env.set_allocs (suc (suc s.moment)))
    → Allocates (env.set_allocs (suc (suc s.moment))).entry s.store (length (key_text i c))
    → IsFree (lookup (key_text i c) (chain cs (bucket_of (key_text i c) n)))
    → (s' : Session) × (answer : Response) × (job_loop fuel env (2 + rounds) s
        ≡ job_loop fuel env rounds s')
      × (s'.sent ≡ (s.client_nr, answer) ∷ (s.client_nr, ok_response zero_response) ∷ s.sent)
      × Answers (msg_text i c) answer
      × Serving s'
job_loop-benchmark n ls cs fuel env rounds s i c r q request question low narrow sized sized' sets
      gets serving arrives m enough idle v al free =
    let (set_made, carries) = known_set i c r low narrow sized request sets in
    let get_made = known_get i c q low narrow sized' question gets in
    let (s', run, log, serving') =
      job_loop-set_get n ls cs fuel env rounds s request question (key_text i c) serving arrives
        set_made.method get_made.method m set_made.request get_made.request enough idle v al free in
    (
      s',
      value_response request.msg request.msg_len zero_response,
      run,
      log,
      value_response-Answers i c request low narrow carries,
      serving',
    )
