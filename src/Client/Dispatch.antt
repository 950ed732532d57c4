-- ===== src/Client/Dispatch.antt =====
-- `send_request` and `receive_response` of src/client/client.c, and connecting as `start_instance` of
-- src/benchmarking/instance.c does it for each connection type.
use rdma_kv_store.Base.{ℕ, ℤ, pos, negsuc}
use rdma_kv_store.Common.{ConnectionType, tcp, rc, uc, ud}
use rdma_kv_store.Verbs.{Prog, ◌>>=◌, pure, gets}
use rdma_kv_store.Client.{Client}
use rdma_kv_store.Client.Tcp.{tcp_send_request, tcp_receive_response}
use rdma_kv_store.Client.Rc.{rc_send_request, rc_receive_response}
use rdma_kv_store.Client.Uc.{uc_send_request, uc_receive_response}
use rdma_kv_store.Client.Ud.{ud_send_request, ud_receive_response}

-- `if (ret > 0) ret = 0;`
abbrev pub cap_zero : ℤ → ℤ
cap_zero (pos n) = pos 0
cap_zero (negsuc n) = negsuc n

module _ {R : Type 0} where
  unfoldable pub send_by : ConnectionType → ℕ → Prog Client R ℤ
  send_by tcp fuel = do ret ← tcp_send_request; pure (cap_zero ret)
  send_by rc fuel = do b ← gets λ s. s.blocking; rc_send_request fuel b
  send_by uc fuel = do b ← gets λ s. s.blocking; uc_send_request fuel b
  send_by ud fuel = do b ← gets λ s. s.blocking; ud_send_request fuel b

  unfoldable pub receive_by : ConnectionType → ℕ → Prog Client R ℤ
  receive_by tcp fuel = tcp_receive_response
  receive_by rc fuel = do b ← gets λ s. s.blocking; rc_receive_response fuel b
  receive_by uc fuel = do b ← gets λ s. s.blocking; uc_receive_response fuel b
  receive_by ud fuel = do b ← gets λ s. s.blocking; ud_receive_response fuel b

  unfoldable pub send_request : ℕ → Prog Client R ℤ
  unfolding send_by
  send_request fuel = do t ← gets λ s. s.conn_t; send_by t fuel

  unfoldable pub receive_response : ℕ → Prog Client R ℤ
  unfolding receive_by
  receive_response fuel = do t ← gets λ s. s.conn_t; receive_by t fuel
