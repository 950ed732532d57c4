-- ===== src/Server/UdTurn.antt =====
-- A round of `main_job` (src/server/kvstore.c) on the UD server with one worker.
use rdma_kv_store.Base.{
  ℕ, suc, ◌+◌, ◌%◌, ◌<◌, ◌≡◌, refl, sym, ap, ◌∙◌, false, List, [], ◌∷◌, ◌++◌, none, arith,
  get_elem?, length, get_elem?-set_self, set, length-set, pos,
}
use rdma_kv_store.Machine.{done}
use rdma_kv_store.Common.{ud, Request, Response, zero_response}
use rdma_kv_store.Hash.State.{Store}
use rdma_kv_store.Server.{Route, max_clients, message, Env, Session}
use rdma_kv_store.Server.Transport.{
  advance, land_in, push_receive, get_current_request, is_connection_closed,
  prepare_for_next_request, ready_for_next_request,
}
use rdma_kv_store.Server.Dispatch.{request_dispatcher, dispatch_received, recv_request, remember}
use rdma_kv_store.Server.Worker.{next_turn, handle, answer_request, turn}
use rdma_kv_store.Server.Turn.{
  IsStored, AllOpen, AllOpen-set, first_open, dispatch_nothing, ready_stored,
}
use rdma_kv_store.Server.Pool.{around}
use rdma_kv_store.Server.Tally.{around-snoc}
use rdma_kv_store.Server.Held.{IsKnown, landed, receive_header-landed, current_shared, send_shared}

-- What the worker thread relies on between rounds, after `place` requests: the lock is free, and the
-- 1024 buffers are posted in order, the current one first.
pub record UdServing (s : Session) : Type 0 where
  pub is_ud : s.type ≡ ud
  pub unlocked : s.lock ≡ false
  pub width : length s.shared.slots ≡ max_clients
  pub place : ℕ
  pub count : s.shared.request_count ≡ place % 1024
  pub queue : s.shared.queue ≡ around place 1024
  pub opened : AllOpen s.shared.slots

-- The session once a request `r` has landed and the client was noted.
abbrev noted : Request → ℕ → List ℕ → Session → Session
noted r i rest s = record (landed r i rest s) { client_handling = r.client_id }

-- The session once the buffer was posted again.
abbrev reposted : Request → ℕ → List ℕ → Session → Session
reposted r i rest s = record s {
  shared = advance max_clients (push_receive (pos 0) (land_in r i rest s.shared));
  lock = false;
  client_handling = r.client_id;
  moment = suc (suc s.moment);
}

-- The session after a request `r` was answered with `response`.
abbrev pub answered_ud : Request → Route → Response → Store → ℕ → List ℕ → Session → Session
answered_ud r to response st i rest s = record (reposted r i rest s) {
  response = response;
  store = st;
  datagrams = (to, response) ∷ s.datagrams;
  moment = suc (suc (suc (suc s.moment)));
}

open_ud :
    (u : Session)
    → u.type ≡ ud
    → 0 < length u.shared.slots
    → AllOpen u.shared.slots
    → is_connection_closed u ≡ done false u
unfolding is_connection_closed
open_ud u t wide o =
    let (first, at_first, kept) = first_open u.shared.slots wide o in rw (t, at_first, kept) refl

-- The queue, as its first buffer and the rest.
pub queue_front :
    (s : Session)
    → (v : UdServing s) → s.shared.queue ≡ s.shared.request_count ∷ around (suc v.place) 1023
queue_front s v = v.queue ∙ ap (λ c. c ∷ around (suc v.place) 1023) (sym v.count)

-- One more buffer around the ring, at its end.
around-turned :
    (k n : ℕ) (c : ℕ)
    → c ≡ k % 1024
    → n ≡ 1023
    → around (suc k) n ++ c ∷ [] ≡ around (suc k) (suc n)
around-turned k n c e m =
    let back : c ≡ (suc k + n) % 1024 = omega (arith, e, m) in
    ap (λ x. around (suc k) n ++ x ∷ []) back ∙ around-snoc (suc k) n

module _ (fuel : ℕ) (env : Env) (s : Session) (r : Request) (to : Route) (st : Store)
    (response : Response) (i : ℕ) (rest : List ℕ) (serving : UdServing s)
    (q : s.shared.queue ≡ i ∷ rest) (front : s.shared.request_count ≡ i)
    (stored : IsStored r.method) where
  current_ud :
      (u : Session)
      → u.type ≡ ud
      → u.shared ≡ land_in r i rest s.shared
      → get_current_request u ≡ done r u
  current_ud u t e =
      let inside : i < length s.shared.slots = omega (arith, serving.count, front, serving.width) in
      current_shared u r t (
        ap (λ b. get_elem? b.slots b.request_count) e
        ∙ ap (λ j. get_elem? (set s.shared.slots i r) j) front
        ∙ get_elem?-set_self s.shared.slots i r inside)

  prepare_ud : prepare_for_next_request env s.type s ≡ done (pos 0) s
  unfolding prepare_for_next_request
  prepare_ud = rw serving.is_ud refl

  dispatch_ud : dispatch_received env (landed r i rest s) ≡ done r (noted r i rest s)
  unfolding dispatch_received request_dispatcher
  dispatch_ud =
      let same : remember env s.type r (landed r i rest s) ≡ noted r i rest s =
        ap (λ t. remember env t r (landed r i rest s)) serving.is_ud in
      rw
        (
          current_ud (landed r i rest s) serving.is_ud refl,
          same,
          current_ud (noted r i rest s) serving.is_ud refl,
          dispatch_nothing env r.method r (noted r i rest s) stored,
          current_ud (noted r i rest s) serving.is_ud refl,
        )
        refl

  ready_ud :
      env.post_recv (suc s.moment) ≡ pos 0
      → ready_for_next_request env s.type (noted r i rest s) ≡ done tt (reposted r i rest s)
  unfolding ready_for_next_request
  ready_ud post = rw (serving.is_ud, post) refl

  pub turn-ud :
      r.connection_close ≡ false
      → IsKnown s.ah s.remote_qpns r.client_id to
      → env.arrival s.moment ≡ message r
      → env.post_recv (suc s.moment) ≡ pos 0
      → handle fuel env r.method (suc (suc s.moment)) r zero_response s.store ≡ done response st
      → env.send_error (suc (suc (suc s.moment))) ≡ none
      → turn fuel env s ≡ done next_turn (answered_ud r to response st i rest s)
  unfolding turn recv_request answer_request
  turn-ud h known arrived post handled sent =
      rw
        (
          prepare_ud,
          receive_header-landed env s r i rest serving.is_ud serving.unlocked q arrived,
          dispatch_ud,
          ready_stored env r.method (noted r i rest s) stored,
          ready_ud post,
          handled,
          send_shared env before_send to serving.is_ud known sent,
          open_ud (answered_ud r to response st i rest s) serving.is_ud wide
              (AllOpen-set s.shared.slots i r serving.opened h),
        )
        refl
    where
      before_send : Session
      before_send = record (reposted r i rest s) {
        response = response;
        store = st;
        moment = suc (suc (suc s.moment));
      }

      wide : 0 < length (set s.shared.slots i r)
      wide = omega (arith, length-set s.shared.slots i r, serving.width)

  pub answered-UdServing :
      r.connection_close ≡ false
      → rest ≡ around (suc serving.place) 1023
      → UdServing (answered_ud r to response st i rest s)
  answered-UdServing h behind = record {
    is_ud = serving.is_ud;
    unlocked = refl;
    width = length-set s.shared.slots i r ∙ serving.width;
    place = suc serving.place;
    count = omega (arith, serving.count);
    queue =
        ap (λ t. t ++ s.shared.request_count ∷ []) behind
        ∙ around-turned serving.place 1023 s.shared.request_count serving.count refl;
    opened = AllOpen-set s.shared.slots i r serving.opened h;
  }
