-- ===== src/Server/Sequence.antt =====
-- Requests one after another in the loop of `main_job` (src/server/kvstore.c).
use rdma_kv_store.Base.{
  ℕ, suc, ◌+◌, ◌≡◌, refl, sym, ap, false, List, [], ◌∷◌, none, arith, length, pos,
}
use rdma_kv_store.Machine.{done}
use rdma_kv_store.Common.{Request, Response, zero_response}
use rdma_kv_store.Hash.State.{Store}
use rdma_kv_store.Server.{message, Env, Session}
use rdma_kv_store.Server.Worker.{handle, job_loop}
use rdma_kv_store.Server.Turn.{IsStored, Serving, answered, answered-Serving, turn-answered}

-- From a moment on, these requests arrive one after another, every buffer can be posted, and every
-- response can be sent.
abbrev pub Arrives : Env → ℕ → List Request → Type 0
Arrives env t [] = Unit
Arrives env t (r ∷ rs) =
    (env.post_recv t ≡ pos 0)
    × (env.arrival (suc t) ≡ message r)
    × (env.send_error (suc (suc (suc t))) ≡ none)
    × (r.connection_close ≡ false)
    × IsStored r.method
    × Arrives env (suc (suc (suc (suc t)))) rs

-- The handlers, run on the requests in order from a moment and a table on, give these responses and
-- leave this table.
abbrev pub Handles : ℕ → Env → ℕ → Store → List Request → List Response → Store → Type 0
Handles fuel env t st [] [] st' = st' ≡ st
Handles fuel env t st [] (a ∷ as') st' = ⊥
Handles fuel env t st (r ∷ rs) [] st' = ⊥
Handles fuel env t st (r ∷ rs) (a ∷ as') st' =
    (mid : Store) × (handle fuel env r.method (suc (suc t)) r zero_response st ≡ done a mid)
    × Handles fuel env (suc (suc (suc (suc t)))) mid rs as' st'

-- The log after responses to one client, newest first.
abbrev pub log_all : ℕ → List Response → List (ℕ × Response) → List (ℕ × Response)
log_all nr [] sent = sent
log_all nr (a ∷ as') sent = log_all nr as' ((nr, a) ∷ sent)

-- On an RC or UC connection whose buffers are in step, the loop of the worker thread answers any
-- sequence of SET, GET, DEL, DUMP and RST requests with exactly the responses that the handlers
-- give, one each and in order, leaves the table that they leave, and goes on in step. It relies on
-- posts and sends that succeed, on handlers that return, and on requests that do not close the
-- connection.
pub job_loop-Handles :
    (fuel : ℕ) (env : Env) (rounds : ℕ) (s : Session) (rs : List Request) (as' : List Response)
    (st : Store)
    → Serving s
    → Arrives env s.moment rs
    → Handles fuel env s.moment s.store rs as' st
    → (s' : Session) × (job_loop fuel env (length rs + rounds) s ≡ job_loop fuel env rounds s')
      × (s'.sent ≡ log_all s.client_nr as' s.sent)
      × (s'.store ≡ st)
      × Serving s'
unfolding job_loop
job_loop-Handles fuel env rounds s [] [] st serving a h =
    let zero_more : 0 + rounds ≡ rounds = omega arith in
    (s, ap (λ k. job_loop fuel env k s) zero_more, refl, sym h, serving)
job_loop-Handles fuel env rounds s [] (x ∷ as') st serving a h = absurd h
job_loop-Handles fuel env rounds s (r ∷ rs) [] st serving a h = absurd h
job_loop-Handles fuel env rounds s (r ∷ rs) (x ∷ as') st serving
      (post, arrived, sent, stays, stored, rest) (mid, handled, more) =
    let (s', run, log, table, serving') =
      job_loop-Handles fuel env rounds (answered r x mid s) rs as' st
        (answered-Serving fuel env s r mid x serving stored stays) rest more in
    let one_more : suc (length rs) + rounds ≡ suc (length rs + rounds) = omega arith in
    (
      s',
      rw (one_more, turn-answered fuel env s r mid x serving stored stays post arrived handled sent)
          run,
      log,
      table,
      serving',
    )
