-- ===== src/Client/Teardown.antt =====
-- Taking an RC connection down: `client_disconnect_and_clean` of src/client/rc_client_utils.c.
use rdma_kv_store.Base.{
  ℕ, zero, suc, ◌≡◌, ◌≢◌, refl, ◌⊎◌, inl, inr, false, List, [], ◌∷◌, ◌++◌, arith, ◌==◌, ◌||◌, not,
  ℤ, pos, truthy, if◌then◌else◌, Bool-cases,
}
use rdma_kv_store.Machine.{use_after_free}
use rdma_kv_store.Verbs.{
  CmEvent, CmPtr, null_event, freed_event, live_event, ack_null, Flow, faults, disconnected,
  get_cm_event, ack_cm_event, disconnect_id, destroy_qp, destroy_id, destroy_cq,
  destroy_comp_channel, dereg_mr, free, dealloc_pd, destroy_event_channel, Call, Os, next,
}
use rdma_kv_store.Verbs.Buffers.{
  same_event, ack_event, process_rdma_cm_event, rdma_buffer_deregister,
}
use rdma_kv_store.Client.{RcConn, Client}
use rdma_kv_store.Client.Rc.{client_disconnect_and_clean}

-- The calls that release what the connection holds, the last one first.
abbrev pub releases : RcConn → List Call
releases c =
    destroy_event_channel c.cm_event_channel
    ∷ dealloc_pd c.pd
    ∷ free c.request
    ∷ dereg_mr c.client_request_mr
    ∷ destroy_comp_channel c.io_completion_channel
    ∷ destroy_cq c.client_cq
    ∷ destroy_id c.cm_client_id
    ∷ destroy_qp c.cm_client_id
    ∷ []

-- The calls that ask for the end of the connection and wait for it.
abbrev pub asked : RcConn → List Call → List Call
asked c log = get_cm_event c.cm_event_channel ∷ disconnect_id c.cm_client_id ∷ log

-- What comes of the wait for the end of the connection.
pub data Awaited : Type 0 where
  came : CmEvent → Awaited
  -- an event with an error, or another event, which was acknowledged
  other : Awaited
  missing : Awaited

unfoldable pub awaited : Os → RcConn → List Call → Awaited
awaited os c log =
    let before = disconnect_id c.cm_client_id ∷ log in
    let event = os.event before in
    if truthy (os.int before (get_cm_event c.cm_event_channel))
    then missing
    else if truthy event.status || not (same_event event.event disconnected)
    then other
    else came event

-- How the teardown ends: with everything released, after the event or NULL was acknowledged, or in the
-- use of an event that was freed.
abbrev pub torn_down : {R : Type 0} → RcConn → List Call → Client → Awaited → Flow Client R ℤ
torn_down c log s (came event) = next (pos 0) (releases c ++ ack_cm_event event.id ∷ asked c log) s
torn_down c log s missing = next (pos 0) (releases c ++ ack_null ∷ asked c log) s
torn_down c log s other = faults use_after_free

deregister-run :
    {R : Type 0} (os : Os) (log : List Call) (s : Client) (mr : ℕ)
    → mr ≢ 0
    → rdma_buffer_deregister {R = R} mr os log s ≡ next tt (dereg_mr mr ∷ log) s
unfolding rdma_buffer_deregister
deregister-run os log s zero h = absurd (h refl)
deregister-run os log s (suc mr) h =
    let some_mr : (suc mr == 0) ≡ false = ground arith in rw some_mr refl

-- The wait gives this pointer after these calls.
abbrev Waits : Os → List Call → Client → CmPtr → List Call → Type 0
Waits os log s p log' =
    (r : ℤ) × (process_rdma_cm_event {R = ℤ} s.rc_conn.cm_event_channel disconnected null_event os
        (disconnect_id s.rc_conn.cm_client_id ∷ log) s
      ≡ next (r, p) log' s)

event-run :
    (os : Os) (log : List Call) (s : Client)
    → ((e : CmEvent) × (awaited os s.rc_conn log ≡ came e)
        × Waits os log s (live_event e) (asked s.rc_conn log))
      ⊎ ((awaited os s.rc_conn log ≡ missing) × Waits os log s null_event (asked s.rc_conn log))
      ⊎ ((awaited os s.rc_conn log ≡ other) × (log' : List Call) × Waits os log s freed_event log')
unfolding process_rdma_cm_event awaited
event-run os log s =
    let before = disconnect_id s.rc_conn.cm_client_id ∷ log in
    let event = os.event before in
    let got = os.int before (get_cm_event s.rc_conn.cm_event_channel) in
    elim (Bool-cases (truthy got)) [
      | inl failed ↦ rw failed (inr (inl (refl, (_, refl))))
      | inr fine ↦ elim (Bool-cases (truthy event.status)) [
        | inl bad ↦ rw (fine, bad) (inr (inr (refl, _, (_, refl))))
        | inr good ↦ elim (Bool-cases (same_event event.event disconnected)) [
          | inl same ↦ rw (fine, good, same) (inl (event, refl, (_, refl)))
          | inr differs ↦ rw (fine, good, differs) (inr (inr (refl, _, (_, refl))))
        ]
      ]
    ]

-- For a request buffer that was registered, client_disconnect_and_clean returns 0 where the event
-- that it waits for comes, or none: it has then acknowledged the event, or NULL, and has released
-- the queue pair, the id, the completion queue and channel, the request's region and buffer, the
-- protection domain and the event channel, each once and in this order, whatever these calls
-- return. Where another event comes, or one with an error, which process_rdma_cm_event has freed,
-- it uses freed memory.
pub client_disconnect_and_clean-torn_down :
    {R : Type 0} (os : Os) (log : List Call) (s : Client)
    → s.rc_conn.client_request_mr ≢ 0
    → client_disconnect_and_clean {R = R} os log s
      ≡ torn_down s.rc_conn log s (awaited os s.rc_conn log)
unfolding client_disconnect_and_clean ack_event
client_disconnect_and_clean-torn_down {R} os log s some_mr =
    let c = s.rc_conn in
    let waited : Call → List Call = (λ ack.
      destroy_comp_channel c.io_completion_channel
      ∷ destroy_cq c.client_cq
      ∷ destroy_id c.cm_client_id
      ∷ destroy_qp c.cm_client_id
      ∷ ack
      ∷ asked c log) in
    let release : (ack : Call)
        → rdma_buffer_deregister {R = ℤ} c.client_request_mr os (waited ack) s
          ≡ next tt (dereg_mr c.client_request_mr ∷ waited ack) s =
      (λ ack. deregister-run {R = ℤ} os (waited ack) s c.client_request_mr some_mr) in
    elim (event-run os log s) [
      | inl (e, end, (r, run)) ↦ rw (run, end, release (ack_cm_event e.id)) refl
      | inr (inl (end, (r, run))) ↦ rw (run, end, release ack_null) refl
      | inr (inr (end, log', (r, run))) ↦ rw (run, end) refl
    ]
