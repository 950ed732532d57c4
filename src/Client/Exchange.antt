-- ===== src/Client/Exchange.antt =====
-- Sending a request and waiting for the response (src/client/client.c), on a connection that makes
-- progress.
use mathlib.Core.Path.{subst, sym}
use rdma_kv_store.Base.{
  ℕ, zero, suc, ◌≤◌, ◌≡◌, ◌≢◌, refl, ◌∙◌, ap, ◌⊎◌, inl, inr, true, false, List, ◌∷◌, arith, ℤ, pos,
  negsuc, neg, truthy, is_neg, is_int, Bool-cases,
}
use rdma_kv_store.Common.{rc}
use rdma_kv_store.Verbs.{WorkRequest, Call, Os, Flow, next, post_recv, post_send}
use rdma_kv_store.Verbs.Buffers.{post_recieve, post_send_wr}
use rdma_kv_store.Verbs.Polling.{Progresses, times, process_work_completion_events-WcResult}
use rdma_kv_store.Setup.{sizeof_request, sizeof_response}
use rdma_kv_store.Client.{Client, lkey_of}
use rdma_kv_store.Client.Rc.{rc_send_request, rc_receive_response}
use rdma_kv_store.Client.Dispatch.{send_by, receive_by, send_request, receive_response}

-- A function of the client that returns, leaves the client as it is, and has a result of this kind.
abbrev pub Yields : {R : Type 0} → (ℤ → Type 0) → Client → Flow Client R ℤ → Type 0
Yields P s flow = (v : ℤ) × (log' : List Call) × (flow ≡ next v log' s) × P v

-- 0, or an error.
abbrev pub Sent : ℤ → Type 0
Sent v = (v ≡ pos 0) ⊎ (is_neg v ≡ true)

-- Not 0: something positive, or an error.
abbrev pub Received : ℤ → Type 0
Received v = truthy v ≡ true

-- Every request that is sent, and every response that is waited for, comes to an end.
pub record Exchanges (R : Type 0) (os : Os) (fuel : ℕ) (s : Client) : Type 0 where
  pub sends : (log : List Call) → Yields Sent s (send_request {R = R} fuel os log s)
  pub receives : (log : List Call) → Yields Received s (receive_response {R = R} fuel os log s)

-- What an RC client relies on: registered buffers, receives that can be posted, and a queue that makes
-- progress.
pub record RcReady (os : Os) (fuel b : ℕ) (s : Client) : Type 0 where
  pub is_rc : s.conn_t ≡ rc
  pub spins : s.blocking ≡ false
  pub request_mr : s.rc_conn.client_request_mr ≢ 0
  pub response_mr : s.rc_conn.client_response_mr ≢ 0
  pub progress : Progresses os s.rc_conn.client_cq b
  pub posts :
      (log : List Call) (wr : WorkRequest)
      → truthy (os.int log (post_recv s.rc_conn.client_qp wr)) ≡ false
  pub enough : times 1 b ≤ fuel

pub neg-errors : (n : ℕ) → n ≢ 0 → is_neg (neg n) ≡ true
neg-errors zero h = absurd (h refl)
neg-errors (suc n) h = refl

neg-Sent : (n : ℕ) → Sent (neg n)
neg-Sent zero = inl refl
neg-Sent (suc n) = inr refl

pub truthy-neg : (v : ℤ) → is_neg v ≡ true → truthy v ≡ true
truthy-neg (pos n) h = absurd cc
truthy-neg (negsuc n) h = refl

lkey_of-some :
    {R : Type 0} (os : Os) (log : List Call) (s : Client) (mr : ℕ)
    → mr ≢ 0
    → lkey_of {R = R} mr os log s ≡ next (os.lkey mr) log s
lkey_of-some os log s zero h = absurd (h refl)
lkey_of-some os log s (suc mr) h = refl

not_one : (v : ℤ) → is_neg v ≡ true → is_int v 1 ≡ false
not_one (pos n) h = absurd cc
not_one (negsuc n) h = refl

module _ {R : Type 0} (os : Os) (fuel b : ℕ) (s : Client) (ready : RcReady os fuel b s)
    (log : List Call) where
  rc_send_request-Sent : Yields Sent s (rc_send_request {R = R} fuel false os log s)
  unfolding rc_send_request post_send_wr
  rc_send_request-Sent =
      let c = s.rc_conn in
      let call : Call = post_send c.client_qp (record {
        wr_id = 1;
        addr = c.request;
        size = sizeof_request;
        lkey = os.lkey c.client_request_mr;
      }) in
      let (v, log', run, result) =
        process_work_completion_events-WcResult {S = Client} {R = ℤ} fuel c.io_completion_channel 1
          c.client_cq b os (call ∷ log) s (omega arith) ready.progress ready.enough in
      rw (lkey_of-some {R = ℤ} os log s c.client_request_mr ready.request_mr)
        (elim (Bool-cases (truthy (os.int log call))) [
          | inl failed ↦
              rw failed
                (neg (os.errno (call ∷ log)), call ∷ log, refl, neg-Sent (os.errno (call ∷ log)))
          | inr fine ↦
              rw (fine, run)
                (elim result [
                  | inl e ↦ rw e (pos 0, log', refl, inl refl)
                  | inr bad ↦ rw (not_one v bad) (v, log', refl, inr bad)
                ])
        ])

  rc_receive_response-Received : Yields Received s (rc_receive_response {R = R} fuel false os log s)
  unfolding rc_receive_response post_recieve
  rc_receive_response-Received =
      let c = s.rc_conn in
      let wr : WorkRequest = record {
        wr_id = 0;
        addr = c.response;
        size = sizeof_response;
        lkey = os.lkey c.client_response_mr;
      } in
      let call : Call = post_recv c.client_qp wr in
      let fine = ready.posts log wr in
      let (v, log', run, result) =
        process_work_completion_events-WcResult {S = Client} {R = ℤ} fuel c.io_completion_channel 1
          c.client_cq b os (call ∷ log) s (omega arith) ready.progress ready.enough in
      rw (lkey_of-some {R = ℤ} os log s c.client_response_mr ready.response_mr) (
        rw (fine, run)
          (elim result [
            | inl e ↦ rw e (pos 1, log', refl, refl)
            | inr bad ↦ rw (not_one v bad) (v, log', refl, truthy-neg v bad)
          ]))

-- An RC client.
pub Exchanges-rc :
    {R : Type 0} (os : Os) (fuel b : ℕ) (s : Client) → RcReady os fuel b s → Exchanges R os fuel s
unfolding send_request send_by receive_response receive_by
Exchanges-rc {R} os fuel b s ready = record {
  sends = λ log.
      subst (Yields Sent s)
        (sym (
          ap (λ t. send_by {R = R} t fuel os log s) ready.is_rc
          ∙ ap (λ k. rc_send_request {R = R} fuel k os log s) ready.spins))
        (rc_send_request-Sent {R = R} os fuel b s ready log);
  receives = λ log.
      subst (Yields Received s)
        (sym (
          ap (λ t. receive_by {R = R} t fuel os log s) ready.is_rc
          ∙ ap (λ k. rc_receive_response {R = R} fuel k os log s) ready.spins))
        (rc_receive_response-Received {R = R} os fuel b s ready log);
}
