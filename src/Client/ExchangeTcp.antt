-- ===== src/Client/ExchangeTcp.antt =====
-- Sending a request and waiting for the response over TCP (src/client/client.c,
-- src/client/tcp_client_utils.c).
use mathlib.Core.Path.{subst, sym}
use rdma_kv_store.Base.{
  true, ◌||◌, ℕ, zero, suc, ◌≡◌, ◌≢◌, refl, ◌∙◌, ap, inl, inr, List, ◌∷◌, arith, ℤ, pos, negsuc,
  neg, is_neg, is_int, Bool-cases, false,
}
use rdma_kv_store.Common.{tcp}
use rdma_kv_store.Verbs.{read_response, write_request, flow_then, pure, Call, Os, next}
use rdma_kv_store.Client.{Client}
use rdma_kv_store.Client.Tcp.{tcp_send_request, tcp_receive_response}
use rdma_kv_store.Client.Dispatch.{cap_zero, send_by, receive_by, send_request, receive_response}
use rdma_kv_store.Client.Exchange.{Yields, Sent, Received, Exchanges, neg-errors, truthy-neg}

-- What a TCP client relies on: a server that does not close the connection, and a read that sets errno where it fails.
pub record TcpReady (os : Os) (s : Client) : Type 0 where
  pub is_tcp : s.conn_t ≡ tcp
  pub open_ : (log : List Call) → os.int log (read_response s.tcp_conn.socket) ≢ pos 0
  pub reports :
      (log : List Call)
      → is_neg (os.int log (read_response s.tcp_conn.socket)) ≡ true
      → os.errno (read_response s.tcp_conn.socket ∷ log) ≢ 0

cap_zero-Sent : (v : ℤ) → Sent (cap_zero v)
cap_zero-Sent (pos n) = inl refl
cap_zero-Sent (negsuc n) = inr refl

module _ {R : Type 0} (os : Os) (s : Client) (log : List Call) where
  tcp_send_request-done :
      (v : ℤ) × (log' : List Call) × (tcp_send_request {R = R} os log s ≡ next v log' s)
  unfolding tcp_send_request
  tcp_send_request-done =
      let call = write_request s.tcp_conn.socket in
      let v = os.int log call in
      elim (Bool-cases (is_neg v || is_int v 0)) [
        | inl bad ↦ rw bad (neg (os.errno (call ∷ log)), call ∷ log, refl)
        | inr good ↦ rw good (v, call ∷ log, refl)
      ]

  tcp_receive_response-Received :
      (v : ℤ)
      → os.int log (read_response s.tcp_conn.socket) ≡ v
      → v ≢ pos 0
      → (is_neg v ≡ true → os.errno (read_response s.tcp_conn.socket ∷ log) ≢ 0)
      → Yields Received s (tcp_receive_response {R = R} os log s)
  unfolding tcp_receive_response
  tcp_receive_response-Received (pos zero) e h reports = absurd (h refl)
  tcp_receive_response-Received (pos (suc n)) e h reports =
      let call = read_response s.tcp_conn.socket in
      let some_bytes : is_int (pos (suc n)) 0 ≡ false = ground arith in
      rw (e, some_bytes) (pos (suc n), call ∷ log, refl, refl)
  tcp_receive_response-Received (negsuc n) e h reports =
      let call = read_response s.tcp_conn.socket in
      let bad = neg-errors (os.errno (call ∷ log)) (reports refl) in
      rw e (
        neg (os.errno (call ∷ log)),
        call ∷ log,
        refl,
        truthy-neg (neg (os.errno (call ∷ log))) bad,
      )

-- A TCP client.
pub Exchanges-tcp :
    {R : Type 0} (os : Os) (fuel : ℕ) (s : Client) → TcpReady os s → Exchanges R os fuel s
unfolding send_request send_by receive_response receive_by
Exchanges-tcp {R} os fuel s ready = record {
  sends = λ log.
      let (v, log', run) = tcp_send_request-done {R = R} os s log in
      subst (Yields Sent s)
        (sym (
          ap (λ t. send_by {R = R} t fuel os log s) ready.is_tcp
          ∙ ap (λ f. flow_then f (λ ret. pure (cap_zero ret)) os) run))
        (cap_zero v, log', refl, cap_zero-Sent v);
  receives = λ log.
      subst (Yields Received s) (sym (ap (λ t. receive_by {R = R} t fuel os log s) ready.is_tcp)) (
        tcp_receive_response-Received {R = R} os s log
          (os.int log (read_response s.tcp_conn.socket)) refl (ready.open_ log)
          (ready.reports log));
}
