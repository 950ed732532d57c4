-- ===== src/Verbs/Polling.antt =====
-- Waiting for work completions (src/rdma_common.c) ends, with the number of completions asked for,
-- where the completion queue makes progress.
use rdma_kv_store.Base.{
  ℕ, zero, suc, ◌+◌, ◌-◌, ◌≤◌, ◌<◌, ◌≡◌, ◌≢◌, refl, ap, ◌⊎◌, inl, inr, true, false, ◌==◌, ltb, List,
  [], ◌∷◌, ◌++◌, arith, length, length-append, append_nil, ℤ, pos, negsuc, neg, Bool-cases, is_neg,
  ltb→lt,
}
use rdma_kv_store.Verbs.{
  Completed, Call, poll_cq, Polled, poll_error, polled, Os, Flow, next, leaves,
}
use rdma_kv_store.Verbs.Completion.{
  await_cq, bad_status, poll_once, poll_loop, finish_completions, process_work_completion_events,
}

-- `r * b`
abbrev pub times : ℕ → ℕ → ℕ
times zero b = 0
times (suc r) b = b + times r b

times_mono : (a b k : ℕ) → a ≤ b → times a k ≤ times b k
times_mono zero b k h = omega arith
times_mono (suc a) zero k h = absurd (omega arith)
times_mono (suc a) (suc b) k h = omega (arith, times_mono a b k (omega arith))

-- The log after `k` more calls `c`.
abbrev pub repeated : Call → ℕ → List Call → List Call
repeated c zero log = log
repeated c (suc k) log = repeated c k (c ∷ log)

-- A poll gives no more than it was asked for; and of any `b` polls in a row, one gives a completion
-- or an error.
pub record Progresses (os : Os) (cq b : ℕ) : Type 0 where
  pub bounded :
      (log : List Call) (n : ℕ) (cs : List Completed)
      → os.poll log (poll_cq cq n) ≡ polled cs
      → length cs ≤ n
  pub lively :
      (log : List Call) (n : ℕ)
      → 0 < n
      → (k : ℕ) × (k < b) × (os.poll (repeated (poll_cq cq n) k log) (poll_cq cq n) ≢ polled [])

-- All completions are there, or a poll gave an error.
abbrev pub PollEnds : {S : Type 0} → ℕ → S → Flow S ℤ (List Completed) → Type 0
PollEnds max_wc s flow =
    ((all : List Completed) × (log' : List Call) × (flow ≡ next all log' s) × (length all ≡ max_wc))
    ⊎ ((n : ℕ) × (log' : List Call) × (flow ≡ leaves (negsuc n) log' s))

module _ {S : Type 0} (os : Os) (cq b : ℕ) (max_wc : ℕ) (p : Progresses os cq b) (s : S) where
  -- That the loop ends, on some fuel.
  EndsWith : ℕ → Type 0
  EndsWith fuel =
      (k r : ℕ) (log : List Call) (wc : List Completed)
      → length wc + suc r ≡ max_wc
      → os.poll (repeated (poll_cq cq (max_wc - length wc)) k log) (poll_cq cq (max_wc - length wc))
        ≢ polled []
      → k + times r b < fuel
      → PollEnds max_wc s (poll_loop fuel cq max_wc wc os log s)

  -- After completions have come, and some are missing.
  poll_loop-more :
      (fuel : ℕ)
      → EndsWith fuel
      → (r : ℕ) (log : List Call) (wc : List Completed) → length wc + suc r ≡ max_wc
      → times (suc r) b ≤ fuel
      → PollEnds max_wc s (poll_loop fuel cq max_wc wc os log s)
  unfolding EndsWith
  poll_loop-more fuel ih r log wc width enough =
      let (k, near, busy) = p.lively log (max_wc - length wc) (omega (arith, width)) in
      ih k r log wc width busy (omega (arith, enough, near))

  poll_loop-step :
      (fuel : ℕ)
      → EndsWith fuel
      → (a : Polled) (k r : ℕ) (log : List Call) (wc : List Completed)
      → os.poll log (poll_cq cq (max_wc - length wc)) ≡ a
      → length wc + suc r ≡ max_wc
      → os.poll (repeated (poll_cq cq (max_wc - length wc)) k log) (poll_cq cq (max_wc - length wc))
        ≢ polled []
      → k + times r b < suc fuel
      → PollEnds max_wc s (poll_loop (suc fuel) cq max_wc wc os log s)
  unfolding poll_loop poll_once EndsWith
  poll_loop-step fuel ih (poll_error n) k r log wc e width busy enough =
      rw e (inr (n, poll_cq cq (max_wc - length wc) ∷ log, refl))
  poll_loop-step fuel ih (polled []) zero r log wc e width busy enough = absurd (busy e)
  poll_loop-step fuel ih (polled []) (suc k) r log wc e width busy enough =
      let short : ltb (length wc) max_wc ≡ true = ground (arith, width) in
      rw (e, append_nil wc, short)
        (ih k r (poll_cq cq (max_wc - length wc) ∷ log) wc width busy (omega (arith, enough)))
  poll_loop-step fuel ih (polled (x ∷ xs)) k r log wc e width busy enough =
      let fits = p.bounded log (max_wc - length wc) (x ∷ xs) e in
      let all = wc ++ x ∷ xs in
      let sum = length-append wc (x ∷ xs) in
      elim (Bool-cases (ltb (length all) max_wc)) [
        | inl some_missing ↦
            rw (e, some_missing)
              (poll_loop-more fuel ih (max_wc - length all - 1)
                (poll_cq cq (max_wc - length wc) ∷ log) all
                (omega (arith, ltb→lt (length all) max_wc some_missing))
                (omega (
                  arith,
                  enough,
                  times_mono (suc (max_wc - length all - 1)) r b
                      (omega (arith, ltb→lt (length all) max_wc some_missing, sum, width)),
                )))
        | inr whole ↦
            rw (e, whole)
              (inl (
                all,
                poll_cq cq (max_wc - length wc) ∷ log,
                refl,
                ground (arith, whole, sum, width, fits),
              ))
      ]

  poll_loop-EndsWith : (fuel : ℕ) → EndsWith fuel
  unfolding EndsWith
  poll_loop-EndsWith zero k r log wc width busy enough = absurd (omega (arith, enough))
  poll_loop-EndsWith (suc fuel) k r log wc width busy enough =
      poll_loop-step fuel (poll_loop-EndsWith fuel) (os.poll log (poll_cq cq (max_wc - length wc)))
        k r log wc refl width busy enough

-- The result is the number of completions asked for, or negative.
abbrev pub WcResult : {S R : Type 0} → ℕ → S → Flow S R ℤ → Type 0
WcResult max_wc s flow =
    (v : ℤ) × (log' : List Call) × (flow ≡ next v log' s) × ((v ≡ pos max_wc) ⊎ (is_neg v ≡ true))

pub neg-is_neg : (n : ℕ) → (n == 0) ≡ false → is_neg (neg n) ≡ true
neg-is_neg zero h = absurd (ground arith)
neg-is_neg (suc n) h = refl

-- Without blocking, process_work_completion_events returns, on a completion queue that gives a
-- completion or an error at least once in b polls and never more completions than it is asked for:
-- with the number of completions asked for, if that is not 0, or with a negative error. Fuel for
-- max_wc * b rounds of the loop is enough.
pub process_work_completion_events-WcResult :
    {S R : Type 0} (fuel channel max_wc cq b : ℕ) (os : Os) (log : List Call) (s : S)
    → 0 < max_wc
    → Progresses os cq b
    → times max_wc b ≤ fuel
    → WcResult max_wc s
        (process_work_completion_events {S = S} {R = R} fuel channel max_wc cq false os log s)
unfolding process_work_completion_events await_cq finish_completions
process_work_completion_events-WcResult {S} {R} fuel channel zero cq b os log s some_wc p enough =
    absurd (omega arith)
process_work_completion_events-WcResult {S} {R} fuel channel (suc r) cq b os log s some_wc p
      enough =
    finish (
      poll_loop-more os cq b (suc r) p s fuel (poll_loop-EndsWith os cq b (suc r) p s fuel) r log []
        (omega arith) enough)
  where
    finish :
        PollEnds (suc r) s (poll_loop fuel cq (suc r) [] os log s)
        → WcResult
            (suc r)
            s
            (process_work_completion_events {S = S} {R = R} fuel channel (suc r) cq false os log s)
    finish (inr (n, log', e)) = rw e (negsuc n, log', refl, inr refl)
    finish (inl (all, log', e, width)) = elim (Bool-cases (bad_status all == 0)) [
      | inl good ↦ rw (e, good) (pos (length all), log', refl, inl (ap pos width))
      | inr bad ↦
          rw (e, bad) (neg (bad_status all), log', refl, inr (neg-is_neg (bad_status all) bad))
    ]
