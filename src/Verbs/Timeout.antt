-- ===== src/Verbs/Timeout.antt =====
-- Waiting for work completions with a timeout (src/rdma_common.c) ends, whatever the completion queue
-- gives.
use rdma_kv_store.Base.{
  ℕ, ◌+◌, ◌≤◌, ◌<◌, ◌≡◌, ◌⊎◌, true, false, List, ◌∷◌, ◌++◌, length, ℤ, pos, negsuc, is_neg,
}
use rdma_kv_store.Verbs.{Completed, Call, poll_cq, get_time, polled, Os, Flow, next, leaves}
use rdma_kv_store.Verbs.Completion.{in_time, timed_loop}

-- A poll gives no more than it was asked for.
abbrev pub Bounded : Os → ℕ → Type 0
Bounded os cq =
    (log : List Call) (n : ℕ) (cs : List Completed)
    → os.poll log (poll_cq cq n) ≡ polled cs
    → length cs ≤ n

-- The clock at the second log is 100 ms or more past the clock at the first.
abbrev pub IsLate : Os → List Call → List Call → Type 0
IsLate os log log' = in_time (os.ptr log get_time) (os.ptr log' get_time) ≡ false

-- While `m` calls are made, 100 ms go by.
abbrev pub Ticks : Os → ℕ → Type 0
Ticks os m = (log more : List Call) → m ≤ length more → IsLate os log (more ++ log)

-- The last call reads the clock, 100 ms or more past its first reading.
abbrev pub IsTimeOver : Os → List Call → List Call → Type 0
IsTimeOver os log0 log' = (log1 : List Call) × (log' ≡ get_time ∷ log1) × IsLate os log0 log1

-- All completions are there, or fewer and the time is over.
abbrev Gathered : Os → ℕ → List Call → List Call → List Completed → Type 0
Gathered os max_wc log0 log' all =
    (length all ≡ max_wc) ⊎ ((length all < max_wc) × IsTimeOver os log0 log')

abbrev TimedEnds : {S : Type 0} → Os → ℕ → List Call → S → Flow S ℤ (List Completed) → Type 0
TimedEnds os max_wc log0 s flow =
    ((all : List Completed) × (log' : List Call) × (flow ≡ next all log' s)
      × Gathered os max_wc log0 log' all)
    ⊎ ((n : ℕ) × (log' : List Call) × (flow ≡ leaves (negsuc n) log' s))

module _ {S : Type 0} (os : Os) (cq m max_wc : ℕ) (bounded : Bounded os cq) (ticks : Ticks os m)
    (log0 : List Call) (s : S) where
  -- That the loop ends on some fuel, after the calls `more`.
  EndsOn : ℕ → Type 0
  EndsOn fuel =
      (more : List Call) (wc : List Completed)
      → length wc < max_wc
      → length more ≤ m
      → m < fuel + length more
      → TimedEnds os max_wc log0 s
          (timed_loop fuel (os.ptr log0 get_time) cq max_wc wc os (more ++ log0) s)

-- The number of completions, that asked for or fewer after 100 ms, or a negative error.
abbrev pub TimedResult : {S R : Type 0} → Os → ℕ → List Call → S → Flow S R ℤ → Type 0
TimedResult os max_wc log s flow =
    (v : ℤ) × (log' : List Call) × (flow ≡ next v log' s)
    × ((v ≡ pos max_wc)
        ⊎ (is_neg v ≡ true)
        ⊎ ((k : ℕ) × (v ≡ pos k) × (k < max_wc) × IsTimeOver os log log'))
