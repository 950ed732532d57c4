-- ===== src/Setup/Quiet.antt =====
-- The functions that accepting an RC client calls return and post no buffer
-- (src/server/rc_server_utils.c, src/rdma_common.c).
use rdma_kv_store.Base.{
  negsuc, neg_ℤ, ℕ, zero, suc, ℤ, pos, neg, truthy, ◌≡◌, ◌≢◌, refl, ◌∙◌, ◌⊎◌, inl, inr, true, false,
  List, ◌∷◌, Bool, ◌==◌, Bool-cases,
}
use rdma_kv_store.Verbs.{
  CmPtr, freed_event, live_event, qpt_rc, Call, Os, Flow, next, CmEventType, established,
  get_cm_event, ack_cm_event, alloc_pd, create_comp_channel, create_cq, req_notify_cq, cm_create_qp,
  reg_mr, accept_id, function_end,
}
use rdma_kv_store.Verbs.Buffers.{same_event, ack_event, rdma_buffer_register, process_rdma_cm_event}
use rdma_kv_store.Setup.{sizeof_response, cq_capacity, Setup}
use rdma_kv_store.Setup.Resources.{connected_attr, setup_rc_client_resources}
use rdma_kv_store.Setup.Accept.{rc_finish_accept}
use rdma_kv_store.Setup.Posting.{posted}

-- A function that returns, posts no buffer, and leaves the structures as they are.
abbrev pub Quiet : {A R : Type 0} → List Call → Setup → Flow Setup R A → Type 0
Quiet {A = A} log s flow =
    (v : A) × (log' : List Call) × (flow ≡ next v log' s) × (posted log' ≡ posted log)

-- A wait for an event that fails sets errno, as `rdma_get_cm_event` does.
abbrev pub WaitSetsErrno : Os → Type 0
WaitSetsErrno os =
    (log : List Call) (channel : ℕ)
    → truthy (os.int log (get_cm_event channel)) ≡ true
    → os.errno (get_cm_event channel ∷ log) ≢ 0

pub truthy-errno : (n : ℕ) → n ≢ 0 → truthy (neg n) ≡ true
truthy-errno zero h = absurd (h refl)
truthy-errno (suc n) h = refl

truthy-neg_ℤ : (v : ℤ) → truthy v ≡ true → truthy (neg_ℤ v) ≡ true
truthy-neg_ℤ (pos zero) h = absurd cc
truthy-neg_ℤ (pos (suc n)) h = refl
truthy-neg_ℤ (negsuc n) h = refl

-- Waiting for an event posts no buffer, and where it gives 0, an event came, if a wait that fails sets
-- errno.
pub process_rdma_cm_event-Quiet :
    {R : Type 0} (channel : ℕ) (expected : CmEventType) (old : CmPtr) (os : Os) (log : List Call)
    (s : Setup)
    → WaitSetsErrno os
    → (v : ℤ × CmPtr) × (log' : List Call) × (process_rdma_cm_event {R = R} channel expected old os
          log s
        ≡ next v log' s)
      × (posted log' ≡ posted log)
      × ((truthy v.0 ≡ true)
          ⊎ ((truthy v.0 ≡ false)
              × (v.1 ≡ live_event (os.event log))
              × (log' ≡ get_cm_event channel ∷ log)))
unfolding process_rdma_cm_event posted
process_rdma_cm_event-Quiet channel expected old os log s reports =
    let event = os.event log in
    let got = get_cm_event channel in
    elim (Bool-cases (truthy (os.int log got))) [
      | inl failed ↦
          let bad = truthy-errno (os.errno (got ∷ log)) (reports log channel failed) in
          rw failed (_, _, refl, refl, inl bad)
      | inr came ↦ elim (Bool-cases (truthy event.status)) [
        | inl bad ↦ rw (came, bad) (_, _, refl, refl, inl (truthy-neg_ℤ event.status bad))
        | inr fine ↦ elim (Bool-cases (same_event event.event expected)) [
          | inl same ↦ rw (came, fine, same) (_, _, refl, refl, inr (came, refl, refl))
          | inr other ↦ rw (came, fine, other) (_, _, refl, refl, inl refl)
        ]
      ]
    ]

pub rdma_buffer_register-Quiet :
    {R : Type 0} (pd addr size : ℕ) (remote : Bool) (os : Os) (log : List Call) (s : Setup)
    → Quiet log s (rdma_buffer_register {R = R} pd addr size remote os log s)
unfolding rdma_buffer_register posted
rdma_buffer_register-Quiet pd addr size remote os log s = elim (Bool-cases (pd == 0)) [
  | inl none_yet ↦ rw none_yet (_, _, refl, refl)
  | inr some_pd ↦ elim (Bool-cases (os.ptr log (reg_mr pd addr size remote) == 0)) [
    | inl failed ↦ rw (some_pd, failed) (_, _, refl, refl)
    | inr fine ↦ rw (some_pd, fine) (_, _, refl, refl)
  ]
]

-- Setting the resources up returns and posts no buffer.
pub setup_rc_client_resources-quiet :
    {R : Type 0} (os : Os) (log : List Call) (s : Setup)
    → (v : ℤ) × (log' : List Call) × (s' : Setup) × (setup_rc_client_resources {R = R} os log s
        ≡ next v log' s')
      × (posted log' ≡ posted log)
      × (s'.request ≡ s.request)
unfolding setup_rc_client_resources posted
setup_rc_client_resources-quiet os log s =
    let id = s.rc_client.cm_client_id in
    let context = os.verbs id in
    let pd = os.ptr log (alloc_pd context) in
    let log1 = alloc_pd context ∷ log in
    let channel = os.ptr log1 (create_comp_channel context) in
    let log2 = create_comp_channel context ∷ log1 in
    let cq = os.ptr log2 (create_cq context cq_capacity channel) in
    let log3 = create_cq context cq_capacity channel ∷ log2 in
    let notified = os.int log3 (req_notify_cq cq) in
    let log4 = req_notify_cq cq ∷ log3 in
    let ret = os.int log4 (cm_create_qp id pd (connected_attr qpt_rc cq)) in
    elim (Bool-cases (id == 0)) [
      | inl e ↦ rw e (_, _, _, refl, refl, refl)
      | inr e0 ↦ elim (Bool-cases (pd == 0)) [
        | inl e ↦ rw (e0, e) (_, _, _, refl, refl, refl)
        | inr e1 ↦ elim (Bool-cases (channel == 0)) [
          | inl e ↦ rw (e0, e1, e) (_, _, _, refl, refl, refl)
          | inr e2 ↦ elim (Bool-cases (cq == 0)) [
            | inl e ↦ rw (e0, e1, e2, e) (_, _, _, refl, refl, refl)
            | inr e3 ↦ elim (Bool-cases (truthy notified)) [
              | inl e ↦ rw (e0, e1, e2, e3, e) (_, _, _, refl, refl, refl)
              | inr e4 ↦ elim (Bool-cases (truthy ret)) [
                | inl e ↦ rw (e0, e1, e2, e3, e4, e) (_, _, _, refl, refl, refl)
                | inr e5 ↦ rw (e0, e1, e2, e3, e4, e5) (_, _, _, refl, refl, refl)
              ]
            ]
          ]
        ]
      ]
    ]

-- The second half returns, posts no buffer, and keeps request_count.
pub rc_finish_accept-quiet :
    {R : Type 0} (before : ℤ) (os : Os) (log : List Call) (s : Setup)
    → WaitSetsErrno os
    → (v : ℤ) × (log' : List Call) × (s' : Setup) × (function_end {R' = R}
          (rc_finish_accept before os log s)
        ≡ next v log' s')
      × (posted log' ≡ posted log)
      × (s'.request_count ≡ s.request_count)
unfolding rc_finish_accept ack_event posted
rc_finish_accept-quiet before os log s reports =
    let id = s.rc_client.cm_client_id in
    let (mr, log1, run1, same1) =
      rdma_buffer_register-Quiet {R = ℤ} s.rc_client.pd s.response sizeof_response false os log s in
    let s1 : Setup = record s { rc_client = record s.rc_client { response_mr = mr } } in
    let log2 = accept_id id ∷ log1 in
    let (got, log3, run3, same3, event) =
      process_rdma_cm_event-Quiet {R = ℤ} s.rc_server.cm_event_channel established freed_event os
        log2 s1 reports in
    let same = same3 ∙ same1 in
    elim (Bool-cases (mr == 0)) [
      | inl e ↦ rw (run1, e) (_, _, _, refl, same1, refl)
      | inr e0 ↦ elim (Bool-cases (truthy (os.int log1 (accept_id id)))) [
        | inl e ↦ rw (run1, e0, e) (_, _, _, refl, same1, refl)
        | inr e1 ↦ elim event [
          | inl e ↦ rw (run1, e0, e1, run3, e) (_, _, _, refl, same, refl)
          | inr (e2, at, place) ↦
              elim (Bool-cases (truthy (os.int log3 (ack_cm_event (os.event log2).id)))) [
                | inl e ↦ rw (run1, e0, e1, run3, e2, at, e) (_, _, _, refl, same, refl)
                | inr e3 ↦ rw (run1, e0, e1, run3, e2, at, e3) (_, _, _, refl, same, refl)
              ]
        ]
      ]
    ]
