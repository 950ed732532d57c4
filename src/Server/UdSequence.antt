-- ===== src/Server/UdSequence.antt =====
-- Requests one after another on the UD server with one worker, in the loop of `main_job`
-- (src/server/kvstore.c), from any of its clients.
use rdma_kv_store.Base.{
  ℕ, suc, ◌+◌, ◌≡◌, refl, sym, ap, false, List, [], ◌∷◌, none, arith, length, pos,
}
use rdma_kv_store.Common.{Request, Response}
use rdma_kv_store.Hash.State.{Store}
use rdma_kv_store.Server.{Route, message, Env, Session}
use rdma_kv_store.Server.Worker.{job_loop}
use rdma_kv_store.Server.Turn.{IsStored}
use rdma_kv_store.Server.Sequence.{Handles}
use rdma_kv_store.Server.Pool.{around}
use rdma_kv_store.Server.Held.{IsKnown}
use rdma_kv_store.Server.UdTurn.{UdServing, answered_ud, queue_front, turn-ud, answered-UdServing}

-- From a moment on, these requests arrive one after another, with these routes under their numbers,
-- every buffer can be posted, and every response can be sent.
abbrev pub UdArrives : Env → List ℕ → List ℕ → ℕ → List Request → List Route → Type 0
UdArrives env ah qpns t [] [] = Unit
UdArrives env ah qpns t [] (to ∷ tos) = ⊥
UdArrives env ah qpns t (r ∷ rs) [] = ⊥
UdArrives env ah qpns t (r ∷ rs) (to ∷ tos) =
    (env.arrival t ≡ message r)
    × (env.post_recv (suc t) ≡ pos 0)
    × (env.send_error (suc (suc (suc t))) ≡ none)
    × (r.connection_close ≡ false)
    × IsKnown ah qpns r.client_id to
    × IsStored r.method
    × UdArrives env ah qpns (suc (suc (suc (suc t)))) rs tos

-- The log after responses along these routes, newest first.
abbrev pub log_each : List Route → List Response → List (Route × Response) → List (Route × Response)
log_each [] as' sent = sent
log_each (to ∷ tos) [] sent = sent
log_each (to ∷ tos) (a ∷ as') sent = log_each tos as' ((to, a) ∷ sent)

-- On the UD server with one worker, whose 1024 buffers are posted in order and whose lock is free,
-- the loop answers any sequence of SET, GET, DEL, DUMP and RST requests, from any clients, with
-- exactly the responses that the handlers give, in order. Each goes to the address handle under
-- the number that its request gives, and to the queue pair number that stands at this place in the
-- order of the connections. The loop leaves the table that the handlers leave, with the lock free
-- and the buffers in order. It relies on completions, posts and sends that succeed, on handlers
-- that return, on requests that do not close the connection, and on numbers with an entry in both
-- arrays.
pub job_loop-UdServing :
    (fuel : ℕ) (env : Env) (rounds : ℕ) (s : Session) (rs : List Request) (tos : List Route)
    (as' : List Response) (st : Store)
    → UdServing s
    → UdArrives env s.ah s.remote_qpns s.moment rs tos
    → Handles fuel env s.moment s.store rs as' st
    → (s' : Session) × (job_loop fuel env (length rs + rounds) s ≡ job_loop fuel env rounds s')
      × (s'.datagrams ≡ log_each tos as' s.datagrams)
      × (s'.store ≡ st)
      × UdServing s'
unfolding job_loop
job_loop-UdServing fuel env rounds s [] [] [] st serving a h =
    let zero_more : 0 + rounds ≡ rounds = omega arith in
    (s, ap (λ k. job_loop fuel env k s) zero_more, refl, sym h, serving)
job_loop-UdServing fuel env rounds s [] (to ∷ tos) as' st serving a h = absurd a
job_loop-UdServing fuel env rounds s [] [] (x ∷ as') st serving a h = absurd h
job_loop-UdServing fuel env rounds s (r ∷ rs) [] as' st serving a h = absurd a
job_loop-UdServing fuel env rounds s (r ∷ rs) (to ∷ tos) [] st serving a h = absurd h
job_loop-UdServing fuel env rounds s (r ∷ rs) (to ∷ tos) (x ∷ as') st serving
      (arrived, post, sent, stays, known, stored, rest) (mid, handled, more) =
    let behind = around (suc serving.place) 1023 in
    let i = s.shared.request_count in
    let front = queue_front s serving in
    let (s', run, log, table, serving') =
      job_loop-UdServing fuel env rounds (answered_ud r to x mid i behind s) rs tos as' st
        (answered-UdServing fuel env s r to mid x i behind serving front refl stored stays refl)
        rest more in
    let one_more : suc (length rs) + rounds ≡ suc (length rs + rounds) = omega arith in
    let first =
      turn-ud fuel env s r to mid x i behind serving front refl stored stays known arrived post
        handled sent in
    (s', rw (one_more, first) run, log, table, serving')
