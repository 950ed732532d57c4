-- ===== src/Setup/Posting.antt =====
-- Posting the receive buffers of an RC connection (src/server/rc_server_utils.c).
use rdma_kv_store.Base.{
  ap, Option, ℕ, zero, suc, ◌+◌, ◌*◌, ◌<◌, ◌≡◌, ◌⊎◌, true, none, List, [], ◌∷◌, ◌++◌, ℤ, pos,
  truthy,
}
use rdma_kv_store.Machine.{wild_pointer}
use rdma_kv_store.Verbs.{
  initialised, flow_then, Prog, ◌>>◌, check, WorkRequest, Call, post_recv, Os, Flow, next, leaves,
  faults,
}
use rdma_kv_store.Verbs.Buffers.{post_recieve}
use rdma_kv_store.Setup.{sizeof_request, current_request_addr, Setup}
use rdma_kv_store.Setup.Resources.{rc_post_receive, post_all}

-- The receives that were posted, each with its queue pair, the first one first.
unfoldable pub posted : List Call → List (ℕ × WorkRequest)
posted [] = []
posted (post_recv qp wr ∷ log) = posted log ++ (qp, wr) ∷ []
posted (_ ∷ log) = posted log

-- Their numbers.
abbrev pub numbers : List (ℕ × WorkRequest) → List ℕ
numbers [] = []
numbers (p ∷ ps) = p.1.wr_id ∷ numbers ps

-- The receive for the buffer `i` of an array of requests, of 352 bytes each, in a memory region.
abbrev pub buffer_post : ℕ → ℕ → ℕ → ℕ → ℕ × WorkRequest
buffer_post qp request key i =
    (qp, record { wr_id = i; addr = request + i * 352; size = 352; lkey = key })

-- Those of the buffers `i`, `i + 1`, ...: `n` of them.
abbrev pub buffer_posts : ℕ → ℕ → ℕ → ℕ → ℕ → List (ℕ × WorkRequest)
buffer_posts qp request key zero i = []
buffer_posts qp request key (suc n) i =
    buffer_post qp request key i ∷ buffer_posts qp request key n (suc i)

abbrev pub post_call : ℕ × WorkRequest → Call
post_call p = post_recv p.0 p.1

-- All `n` buffers from `i` on are posted in order, or the call for one of them failed, with those
-- before it posted, and its result is returned.
abbrev pub PostedAll : Os → ℕ → ℕ → ℕ → List Call → Setup → Flow Setup ℤ ℤ → Type 0
PostedAll os qp n i log s flow =
    let key = os.lkey s.rc_client.request_mr in
    ((log' : List Call) × (s' : Setup) × (flow ≡ next (pos 0) log' s')
      × (posted log' ≡ posted log ++ buffer_posts qp s.request key n i)
      × (s'.request ≡ s.request))
    ⊎ ((m : ℕ) × (k : ℕ) × (log' : List Call) × (s' : Setup) × (m < n)
        × (k ≡ i + m)
        × (posted log' ≡ posted log ++ buffer_posts qp s.request key m i)
        × (flow
            ≡ leaves (os.int log' (post_call (buffer_post qp s.request key k)))
                (post_call (buffer_post qp s.request key k) ∷ log') s')
        × (truthy (os.int log' (post_call (buffer_post qp s.request key k))) ≡ true)
        × (s'.request_count ≡ k))

-- The post of the current buffer, for a queue pair or none.
posted_to : (qp : Option ℕ) → Prog Setup ℤ ℤ
unfolding post_recieve
posted_to qp os log s =
    flow_then (initialised qp os log s)
      (λ q.
        post_recieve sizeof_request (os.lkey s.rc_client.request_mr) s.request_count q
          (current_request_addr s))
      os

-- Without a queue pair, the first post follows a pointer that was never set.
pub post_all-wild :
    (n i : ℕ) (os : Os) (log : List Call) (s : Setup)
    → s.rc_client.client_qp ≡ none
    → post_all (suc n) i rc_post_receive os log s ≡ faults wild_pointer
unfolding post_all rc_post_receive posted_to
post_all-wild n i os log s unset =
    let s1 : Setup = record s { request_count = i } in
    let run : rc_post_receive {R = ℤ} os log s1 ≡ faults wild_pointer =
      ap (λ q. posted_to q os log s1) unset in
    ap (λ f. flow_then f (λ ret. check (truthy ret) ret >> post_all n (suc i) rc_post_receive) os)
      run
