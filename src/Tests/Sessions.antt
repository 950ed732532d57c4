-- ===== src/Tests/Sessions.antt =====
-- The theorems on the worker thread, at concrete inputs.
use rdma_kv_store.Base.{
  ℕ, suc, ◌+◌, ◌≡◌, refl, inl, codes, true, false, [], ◌∷◌, none, some, arith, ◌==◌, if◌then◌else◌,
  replicate, pos,
}
use rdma_kv_store.Machine.{done, blocked, ◌>>=◌, Returns}
use rdma_kv_store.Common.{
  Method, unk, set as set_method, get, ping, rc, ud, ok, parsing_error, Request, zero_response,
}
use rdma_kv_store.Hash.Init.{fresh_store}
use rdma_kv_store.Hash.State.{table, item_at}
use rdma_kv_store.Hash.Table.{hash_step, hash_loop, hash, get_bucket, search_loop, search_key}
use rdma_kv_store.KvStore.Handlers.{key_error_response, get_request}
use rdma_kv_store.Server.{Route, Arrival, message, failed, Env, Session, request_backlog}
use rdma_kv_store.Server.Transport.{advance}
use rdma_kv_store.Server.Dispatch.{recv_request}
use rdma_kv_store.Server.Worker.{next_turn, handle, turn, job_loop}
use rdma_kv_store.Server.Ring.{received_buffers}
use rdma_kv_store.Server.Turn.{Serving}
use rdma_kv_store.Server.Sequence.{log_all, job_loop-Handles}
use rdma_kv_store.Server.Faults.{coded, twice, turn-ping, turn-unk}
use rdma_kv_store.Server.Stale.{next_request, next_request-unk, recv_request-failed}
use rdma_kv_store.Hash.Function.{bucket_of}
use rdma_kv_store.Hash.Chain.{lookup}
use rdma_kv_store.Hash.Model.{chain}
use rdma_kv_store.KvStore.Get.{IsRequest}
use rdma_kv_store.KvStore.Set.{ok_response}
use rdma_kv_store.KvStore.Stored.{IsFree}
use rdma_kv_store.KvStore.Session.{value_response}
use rdma_kv_store.Server.Held.{turn-blocked}
use rdma_kv_store.Server.SetGet.{job_loop-set_get}
use rdma_kv_store.Tests.Fixture.{
  key_k, key_k-cstr, request_of, no_items, no_chains, locks, empty_store-Models, empty_chain,
  locks_idle, set_allocs, set_allocs-AllocatesValue, entry_allocs-Allocates,
}

abbrev pub with_method : Method → Request
with_method m = record (request_of key_k 1 0) { method = m }

abbrev pub env_of : (ℕ → Arrival) → Env
env_of arrival = record {
  arrival = arrival;
  post_recv = λ t. pos 0;
  send_error = λ t. none;
  sndbuf = λ t. none;
  set_allocs = λ t. set_allocs;
  init_allocs = λ t. record { table_ok = true; items_ok = true; locks_ok = true };
}

abbrev pub always : Method → Env
always m = env_of λ t. message (with_method m)

abbrev pub session : Session
session = record {
  type = rc;
  client_nr = 7;
  own = record {
    slots = replicate 5 (with_method get);
    request_count = 0;
    queue = 0 ∷ 1 ∷ 2 ∷ 3 ∷ 4 ∷ [];
  };
  shared = record { slots = []; request_count = 0; queue = [] };
  lock = false;
  client_handling = 0;
  ah = 11 ∷ 12 ∷ [];
  remote_qpns = 21 ∷ 22 ∷ [];
  response = zero_response;
  store = fresh_store 1 no_items;
  sent = [];
  datagrams = [];
  moment = 0;
}

pub session-Serving : Serving session
session-Serving = record {
  connected = inl refl;
  in_step = record { width = refl; inside = omega arith; order = refl };
  opened = (refl, (refl, (refl, (refl, (refl, tt)))));
}

pub get_missing :
    (t : ℕ)
    → handle 4 (always get) get t (with_method get) zero_response (fresh_store 1 no_items)
      ≡ done (key_error_response zero_response) (fresh_store 1 no_items)
unfolding handle get_request search_key get_bucket hash hash_loop hash_step search_loop item_at
    table
get_missing t = refl

job_loop-Handles_example :
    (s' : Session) × (job_loop 4 (always get) (2 + 3) session ≡ job_loop 4 (always get) 3 s')
    × (s'.sent
        ≡ log_all 7 (key_error_response zero_response ∷ key_error_response zero_response ∷ []) [])
    × (s'.store ≡ fresh_store 1 no_items)
    × Serving s'
job_loop-Handles_example =
    job_loop-Handles 4 (always get) 3 session (with_method get ∷ with_method get ∷ [])
      (key_error_response zero_response ∷ key_error_response zero_response ∷ [])
      (fresh_store 1 no_items) session-Serving
      (refl, refl, refl, refl, tt, (refl, refl, refl, refl, tt, tt))
      (fresh_store 1 no_items, get_missing 2, (fresh_store 1 no_items, get_missing 6, refl))

turn-ping_example :
    turn 4 (always ping) session
    ≡ done next_turn (
        twice
          (advance request_backlog (received_buffers (with_method ping) session.own))
          ok
          session)
turn-ping_example =
    turn-ping 4 (always ping) session (with_method ping) session-Serving refl refl refl refl refl
      refl

turn-unk_example :
    turn 4 (always unk) session
    ≡ done next_turn (twice (received_buffers (with_method unk) session.own) parsing_error session)
turn-unk_example =
    turn-unk 4 (always unk) session (with_method unk) session-Serving refl refl refl refl refl refl

-- A PING that arrives after an UNK request.
abbrev unk_then_ping : Env
unk_then_ping = env_of λ t. message (with_method (if t == 6 then ping else unk))

next_request-unk_example :
    Returns
      (λ x s'. x ≡ with_method unk)
      ((turn 4 unk_then_ping >>= λ _. next_request unk_then_ping) session)
next_request-unk_example =
    next_request-unk 4 unk_then_ping session (with_method unk) (with_method ping) session-Serving
      refl refl refl refl refl refl refl refl

recv_request-failed_example :
    recv_request (env_of λ t. failed 110) session
    ≡ done (some (with_method get)) (record session { moment = 1 })
recv_request-failed_example =
    recv_request-failed (env_of λ t. failed 110) session (with_method get) 110 (inl refl) refl
      (λ e. absurd (omega arith)) refl tt

abbrev set_k : Request
set_k = record (request_of key_k 1 3) { method = set_method }

-- A SET of three bytes and then a GET, with an answer to each.
abbrev set_then_gets : Env
set_then_gets = env_of λ t. message (if t == 1 then set_k else with_method get)

set_k-IsRequest : IsRequest set_k (codes "k")
set_k-IsRequest = record {
  key_text = key_k-cstr;
  key_len = refl;
  msg_fits = omega arith;
  msg_width = refl;
}

get_k-IsRequest : IsRequest (with_method get) (codes "k")
get_k-IsRequest = record {
  key_text = key_k-cstr;
  key_len = refl;
  msg_fits = omega arith;
  msg_width = refl;
}

no_entry : IsFree (lookup (codes "k") (chain no_chains (bucket_of (codes "k") 1)))
no_entry = rw (empty_chain (bucket_of (codes "k") 1)) (unfold lookup in tt)

job_loop-set_get_example :
    (s' : Session) × (job_loop 4 set_then_gets (2 + 3) session ≡ job_loop 4 set_then_gets 3 s')
    × (s'.sent
        ≡ (7, value_response (replicate 256 9) 3 zero_response)
          ∷ (7, ok_response zero_response)
          ∷ [])
    × Serving s'
job_loop-set_get_example =
    job_loop-set_get 1 locks no_chains 4 set_then_gets 3 session set_k (with_method get) (codes "k")
      session-Serving (refl, refl, refl, refl, tt, (refl, refl, refl, refl, tt, tt)) refl refl
      empty_store-Models set_k-IsRequest get_k-IsRequest (λ i. rw (empty_chain i) (omega arith))
      (locks_idle (bucket_of (codes "k") 1)) set_allocs-AllocatesValue entry_allocs-Allocates
      no_entry

abbrev pub first_route : Route
first_route = record { handle = 11; qpn = 21 }

abbrev ud_session : Session
ud_session = record session {
  type = ud;
  shared = record {
    slots = replicate 3 (with_method get);
    request_count = 0;
    queue = 0 ∷ 1 ∷ 2 ∷ [];
  };
}

turn-blocked_example :
    (s' : Session) × (turn 4 (always unk) ud_session ≡ done next_turn s')
    × (s'.lock ≡ true)
    × (s'.datagrams ≡ (first_route, zero_response) ∷ (first_route, coded parsing_error) ∷ [])
    × ((env' : Env) → turn 4 env' s' ≡ blocked)
    × ((rounds : ℕ) → job_loop 4 (always unk) (suc (suc rounds)) ud_session ≡ blocked)
turn-blocked_example =
    turn-blocked 4 (always unk) ud_session (with_method unk) (with_method unk) 0 1 (2 ∷ []) refl
      refl refl refl (omega arith) refl refl first_route
      (record { handle_at = refl; qpn_at = refl }) refl refl refl refl
