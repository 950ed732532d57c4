-- ===== src/Server/SetGet.antt =====
-- A SET and a GET of the same key, received one after another by the loop of `main_job`
-- (src/server/kvstore.c).
use rdma_kv_store.Base.{
  ℕ, suc, ◌+◌, ◌<◌, ◌≡◌, refl, ◌∙◌, ap, Bool, false, List, [], ◌∷◌, arith, length, get_or, ℤ, pos,
}
use rdma_kv_store.Machine.{done, Returns-run}
use rdma_kv_store.Common.{Method, set as set_method, get, Request, Response, zero_response}
use rdma_kv_store.Hash.State.{Store}
use rdma_kv_store.Hash.Function.{bucket_of}
use rdma_kv_store.Hash.Chain.{lookup}
use rdma_kv_store.Hash.Model.{Chains, chain, Models}
use rdma_kv_store.Hash.Insert.{Allocates}
use rdma_kv_store.KvStore.Handlers.{set_request, get_request}
use rdma_kv_store.KvStore.Get.{IsRequest, get_spec, read_found, get_request-Models}
use rdma_kv_store.KvStore.Set.{ok_response, AllocatesValue}
use rdma_kv_store.KvStore.Stored.{IsFree, set_request-Stored}
use rdma_kv_store.KvStore.Session.{value_response, read_stored}
use rdma_kv_store.Server.{Env, Session}
use rdma_kv_store.Server.Worker.{handle, job_loop}
use rdma_kv_store.Server.Turn.{Serving}
use rdma_kv_store.Server.Sequence.{Arrives, Handles, job_loop-Handles}

module _ (fuel : ℕ) (env : Env) (m : Method) (moment : ℕ) (request : Request)
    (response answer : Response) (st st' : Store) where
  handle-set :
      (v : ℤ)
      → m ≡ set_method
      → set_request fuel (env.set_allocs moment) request response st ≡ done (v, answer) st'
      → handle fuel env m moment request response st ≡ done answer st'
  unfolding handle
  handle-set v e run = rw (e, run) refl

  handle-get :
      m ≡ get
      → get_request fuel request response st ≡ done answer st'
      → handle fuel env m moment request response st ≡ done answer st'
  unfolding handle
  handle-get e run = rw (e, run) refl

module _ (n : ℕ) (ls : List Bool) (cs : Chains) (st : Store) (fuel : ℕ) (env : Env) (moment : ℕ)
    (request question : Request) (t : List ℕ) (m : Models n ls cs st) (good : IsRequest request t)
    (asked : IsRequest question t) (enough : (i : ℕ) → length (chain cs i) + 1 < fuel)
    (idle : get_or ls (bucket_of t n) false ≡ false)
    (v : AllocatesValue (env.set_allocs (suc (suc moment))))
    (al : Allocates (env.set_allocs (suc (suc moment))).entry st (length t))
    (free : IsFree (lookup t (chain cs (bucket_of t n)))) (sets : request.method ≡ set_method)
    (gets : question.method ≡ get) where
  -- What the handlers make of the two requests.
  Handles-set_get :
      (st' : Store) × Handles fuel env moment st
        (request ∷ question ∷ [])
        (ok_response zero_response ∷ value_response request.msg request.msg_len zero_response ∷ [])
        st'
  Handles-set_get =
      let allocs = env.set_allocs (suc (suc moment)) in
      let (r, st1, run, (answer, (cs', m1, stored))) = Returns-run (
        set_request-Stored n ls cs st fuel allocs request t zero_response m good
          (λ i. omega (arith, enough i)) idle v al free) in
      let (r', st2, run', (answer', m2)) = Returns-run (
        get_request-Models n ls cs' st1 fuel question t zero_response m1 asked
          (λ i. omega (arith, enough i, stored.longer i)) refl) in
      let value : get_spec t (chain cs' (bucket_of t n)) zero_response
          ≡ value_response request.msg request.msg_len zero_response =
        (unfold get_spec in
          (ap (λ o. read_found o zero_response) stored.found
            ∙ read_stored stored.cell request.msg stored.buf request.msg_len zero_response
                stored.free stored.value stored.value_size (rw good.msg_width good.msg_fits))) in
      (
        st2,
        (
          st1,
          handle-set fuel env request.method (suc (suc moment)) request zero_response
              (ok_response zero_response) st st1 (pos 0) sets (run ∙ ap (λ x. done x st1) answer),
          (
            st2,
            handle-get fuel env question.method _ question zero_response _ st1 st2 gets
                (run' ∙ ap (λ x. done x st2) (answer' ∙ value)),
            refl,
          ),
        ),
      )

-- On an RC or UC connection in step, the loop of the worker thread answers a SET of a key and then
-- a GET of it, the first two requests to arrive, with OK and with exactly the msg_len bytes of the
-- message, one response each, and goes on in step. It relies on posts and sends that succeed, on
-- requests that do not close the connection, on a well-formed table whose mutex for the bucket is
-- free, on fuel for one entry more, memory at hand, an entry of the key, if there is one, that
-- nobody holds, keys of length key_len, and a message that fits its 256 bytes.
pub job_loop-set_get :
    (n : ℕ) (ls : List Bool) (cs : Chains) (fuel : ℕ) (env : Env) (rounds : ℕ) (s : Session)
    (request question : Request) (t : List ℕ)
    → Serving s
    → Arrives env s.moment (request ∷ question ∷ [])
    → request.method ≡ set_method
    → question.method ≡ get
    → Models n ls cs s.store
    → IsRequest request t
    → IsRequest question t
    → ((i : ℕ) → length (chain cs i) + 1 < fuel)
    → get_or ls (bucket_of t n) false ≡ false
    → AllocatesValue (env.set_allocs (suc (suc s.moment)))
    → Allocates (env.set_allocs (suc (suc s.moment))).entry s.store (length t)
    → IsFree (lookup t (chain cs (bucket_of t n)))
    → (s' : Session) × (job_loop fuel env (2 + rounds) s ≡ job_loop fuel env rounds s')
      × (s'.sent
          ≡ (s.client_nr, value_response request.msg request.msg_len zero_response)
            ∷ (s.client_nr, ok_response zero_response)
            ∷ s.sent)
      × Serving s'
job_loop-set_get n ls cs fuel env rounds s request question t serving arrives sets gets m good asked
      enough idle v al free =
    let (st', handled) =
      Handles-set_get n ls cs s.store fuel env s.moment request question t m good asked enough idle
        v al free sets gets in
    let (s', run, log, table, serving') =
      job_loop-Handles fuel env rounds s (request ∷ question ∷ [])
        (ok_response zero_response ∷ value_response request.msg request.msg_len zero_response ∷ [])
        st' serving arrives handled in
    (s', run, log, serving')
