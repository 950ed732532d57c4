-- ===== src/Verbs/Completion.antt =====
-- Waiting for work completions: `process_work_completion_events` and its variant with a timeout,
-- of src/rdma_common.c. The polling loop runs on fuel.
use rdma_kv_store.Base.{
  ℕ, zero, suc, ◌-◌, Bool, true, false, ◌==◌, ltb, leb, ◌&&◌, not, if◌then◌else◌, List, [], ◌∷◌,
  ◌++◌, length, ℤ, pos, negsuc, neg, truthy,
}
use rdma_kv_store.Verbs.{
  Completed, get_cq_event, req_notify_cq, ack_cq_event, poll_cq, get_time, Polled, poll_error,
  polled, no_fuel, Prog, ◌>>=◌, ◌>>◌, pure, leave, check, check_errno, invoke, obtain, ask,
  function,
}

-- MAX_POLL_CQ_TIMEOUT, in milliseconds
abbrev pub max_poll_cq_timeout : ℕ
max_poll_cq_timeout = 100

-- `(current_time_msec - start_time_msec) < MAX_POLL_CQ_TIMEOUT` on unsigned numbers: a clock that goes
-- back gives a large difference.
abbrev pub in_time : ℕ → ℕ → Bool
in_time start now = leb start now && ltb (now - start) max_poll_cq_timeout

-- The first status that is not IBV_WC_SUCCESS, 0 if there is none.
unfoldable pub bad_status : List Completed → ℕ
bad_status [] = 0
bad_status (c ∷ cs) = if c.status == 0 then bad_status cs else c.status

module _ {S : Type 0} where
  -- `ret = ibv_poll_cq(...); check(ret < 0, ret, ...)`
  abbrev pub poll_result : Polled → Prog S ℤ (List Completed)
  poll_result (poll_error n) = leave (negsuc n)
  poll_result (polled cs) = pure cs

  unfoldable pub poll_once : ℕ → ℕ → Prog S ℤ (List Completed)
  poll_once cq n = do
    r ← ask λ os log. os.poll log (poll_cq cq n)
    _ ← invoke (poll_cq cq n)
    poll_result r

  -- `do { ... } while (total_wc < max_wc)`, with the completions so far. The subtraction does not go
  -- below 0: `max_wc` is at least 1, and the loop goes on only below it.
  unfoldable pub poll_loop : ℕ → ℕ → ℕ → List Completed → Prog S ℤ (List Completed)
  unfolding poll_once
  poll_loop zero cq max_wc wc os log s = no_fuel
  poll_loop (suc fuel) cq max_wc wc os log s =
      (do
        cs ← poll_once cq (max_wc - length wc)
        if ltb (length (wc ++ cs)) max_wc
            then poll_loop fuel cq max_wc (wc ++ cs)
            else pure (wc ++ cs))
        os log s

  -- `if (blocking) { ... }` before the loop: the completion queue to poll.
  unfoldable pub await_cq : Bool → ℕ → ℕ → Prog S ℤ ℕ
  await_cq false channel cq = pure cq
  await_cq true channel cq = do
    event_cq ← ask λ os log. os.ptr log (get_cq_event channel)
    ret ← invoke (get_cq_event channel)
    check_errno (truthy ret)
    ret' ← invoke (req_notify_cq event_cq)
    check_errno (truthy ret')
    pure event_cq

  -- What follows the loop.
  unfoldable pub finish_completions : Bool → ℕ → List Completed → Prog S ℤ ℤ
  finish_completions blocking cq wc = do
    check (not (bad_status wc == 0)) (neg (bad_status wc))
    if blocking then (do _ ← invoke (ack_cq_event cq); pure tt) else pure tt
    pure (pos (length wc))

  -- The completions are only used for their number and statuses, and the mutex that the function
  -- takes is not used at all.
  unfoldable pub process_work_completion_events : {R : Type 0} → ℕ → ℕ → ℕ → ℕ → Bool → Prog S R ℤ
  unfolding poll_loop await_cq finish_completions
  process_work_completion_events fuel channel max_wc cq blocking = function do
    cq' ← await_cq blocking channel cq
    wc ← poll_loop fuel cq' max_wc []
    finish_completions blocking cq' wc

  -- The loop with a timeout, from a start time in milliseconds.
  unfoldable pub timed_loop : ℕ → ℕ → ℕ → ℕ → List Completed → Prog S ℤ (List Completed)
  unfolding poll_once
  timed_loop zero start cq max_wc wc os log s = no_fuel
  timed_loop (suc fuel) start cq max_wc wc os log s =
      (do
        cs ← poll_once cq (max_wc - length wc)
        now ← obtain get_time
        if ltb (length (wc ++ cs)) max_wc && in_time start now
            then timed_loop fuel start cq max_wc (wc ++ cs)
            else pure (wc ++ cs))
        os log s

  unfoldable pub process_work_completion_events_with_timeout :
      {R : Type 0} → ℕ → ℕ → ℕ → ℕ → Bool → Prog S R ℤ
  unfolding timed_loop await_cq finish_completions
  process_work_completion_events_with_timeout fuel max_wc cq channel blocking = function do
    cq' ← await_cq blocking channel cq
    start ← obtain get_time
    wc ← timed_loop fuel start cq' max_wc []
    finish_completions blocking cq' wc
