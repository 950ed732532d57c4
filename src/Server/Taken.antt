-- ===== src/Server/Taken.antt =====
-- The workers of a UD server take the requests in the order in which they arrived, whichever worker
-- goes first.
use rdma_kv_store.Base.{
  ℕ, ◌+◌, ◌≤◌, ◌≡◌, refl, sym, ap, ◌∙◌, List, ◌++◌, arith, length, drop, take-drop,
}
use rdma_kv_store.Common.{Request}
use rdma_kv_store.Server.{max_clients}
use rdma_kv_store.Server.Tally.{waits, holds, held, tally, tally-polling}
use rdma_kv_store.Server.Order.{Ordered, Steps-Ordered}
use rdma_kv_store.Server.Pool.{Pool, Steps, started_pool}

started_pool-Ordered :
    (slots : List Request) (n : ℕ) → length slots ≡ max_clients → Ordered (started_pool slots n)
started_pool-Ordered slots n wide = record {
  done_ = 0;
  free = 1024;
  count = omega arith;
  width = wide;
  pending = omega (arith, tally-polling waits n refl);
  queue = refl;
  room = omega arith;
  slots = λ k low high. absurd (omega (arith, high));
  taken = refl;
  alone = omega (arith, tally-polling holds n refl);
}

-- However the steps of the workers of a UD server follow one another, the requests that they are
-- led to under the lock are, in order and each once, the first of those that arrived, though a
-- worker polls for its completion before it takes the lock; and no two workers hold the lock at
-- once. The ring starts with all of its 1024 buffers posted in order, and completions and posts
-- succeed.
pub taken-arrived :
    (slots : List Request) (n : ℕ) (p : Pool)
    → length slots ≡ max_clients
    → Steps (started_pool slots n) p
    → (rest : List Request) × (p.arrived ≡ p.taken ++ rest) × (tally holds p.workers ≤ held p.lock)
taken-arrived slots n p wide steps =
    let o = Steps-Ordered steps (started_pool-Ordered slots n wide) in
    let m = o.done_ + held p.lock in
    (
      drop m p.arrived,
      take-drop m p.arrived ∙ ap (λ t. t ++ drop m p.arrived) (sym o.taken),
      o.alone,
    )
