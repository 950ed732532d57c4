-- ===== src/Server/Dispatch.antt =====
-- src/server/request_dispatcher.c, and `recv_request` of src/server/server_utils.c.
use rdma_kv_store.Base.{
  take, decimal, ℕ, zero, suc, Bool, true, false, List, [], Option, none, some, length,
  if◌then◌else◌, replicate, codes, ℤ, pos, negsuc, is_neg,
}
use rdma_kv_store.Machine.{
  Cmd, out_of_bounds, wild_pointer, fault, exited, pure, ◌>>=◌, ◌>>◌, require, memcpy,
}
use rdma_kv_store.Common.{
  ConnectionType, tcp, rc, uc, ud, Method, unk, set, get, del, ping, dump, rst, exit, setopt,
  ResponseCode, ok, key_error, parsing_error, setopt_error, Request, Response, msg_size, strcmp_eq,
}
use rdma_kv_store.Common.CString.{cstr}
use rdma_kv_store.Server.{Env, Session}
use rdma_kv_store.Server.Transport.{
  modify, observe, get_current_request, receive_header, send_response_to_client,
}

-- `r == -1`
abbrev pub is_minus_one : ℤ → Bool
is_minus_one (pos n) = false
is_minus_one (negsuc zero) = true
is_minus_one (negsuc (suc n)) = false

-- The response that `send_response` builds from a payload.
unfoldable pub payload_response : ResponseCode → List ℕ → Option Response
payload_response code payload = do_copy (memcpy (replicate msg_size 0) payload (length payload))
  where
    do_copy : Option (List ℕ) → Option Response
    do_copy none = none
    do_copy (some msg) = some (record { code = code; msg = msg; msg_len = length payload })

module _ (env : Env) where
  unfoldable pub send_response : ResponseCode → List ℕ → Cmd Session ℤ
  unfolding send_response_to_client payload_response
  send_response code payload = do
    r ← require out_of_bounds (payload_response code payload)
    modify λ s. record s { response = r }
    sent ← send_response_to_client env
    pure (if is_neg sent then negsuc 0 else pos 0)

  unfoldable pub ping_request : Cmd Session ℤ
  ping_request = send_response ok []

  -- The answer to SNDBUF, from the buffer size that the kernel tells: its digits, in 256 bytes.
  unfoldable pub sndbuf_answer : Option ℕ → Cmd Session ℤ
  sndbuf_answer none = send_response setopt_error []
  sndbuf_answer (some n) = send_response ok (take 255 (decimal n))

  -- The socket is a TCP client's. On other connections the pointer to it was never set.
  unfoldable pub set_sndbuf : ConnectionType → Cmd Session ℤ
  unfolding sndbuf_answer
  set_sndbuf tcp s = (do size ← observe env.sndbuf; sndbuf_answer size) s
  set_sndbuf rc s = fault wild_pointer
  set_sndbuf uc s = fault wild_pointer
  set_sndbuf ud s = fault wild_pointer

  unfoldable pub setopt_request : Request → Cmd Session ℤ
  unfolding set_sndbuf
  setopt_request request = do
    key ← require out_of_bounds (cstr request.key)
    λ s.
        (if strcmp_eq key (codes "SNDBUF") then set_sndbuf s.type else send_response key_error []) s

  -- `request_dispatcher` by the method of the current request. Its results are not looked at.
  unfoldable pub dispatch_method : Method → Request → Cmd Session (Unit {0})
  unfolding ping_request setopt_request
  dispatch_method ping request = do _ ← ping_request; pure tt
  dispatch_method exit request = do _ ← send_response ok []; exited 0
  dispatch_method setopt request = do _ ← setopt_request request; pure tt
  dispatch_method unk request = do _ ← send_response parsing_error []; pure tt
  dispatch_method set request = pure tt
  dispatch_method get request = pure tt
  dispatch_method del request = pure tt
  dispatch_method dump request = pure tt
  dispatch_method rst request = pure tt

  unfoldable pub request_dispatcher : Cmd Session (Unit {0})
  unfolding dispatch_method
  request_dispatcher = do request ← get_current_request; dispatch_method request.method request

  -- `if (client->type == UD) client->ud_client->client_handling = current->client_id`
  abbrev pub remember : ConnectionType → Request → Session → Session
  remember tcp r s = s
  remember rc r s = s
  remember uc r s = s
  remember ud r s = record s { client_handling = r.client_id }

  -- `recv_request` once a header is there
  unfoldable pub dispatch_received : Cmd Session Request
  unfolding request_dispatcher
  dispatch_received = do
    current ← get_current_request
    modify λ s. remember s.type current s
    request_dispatcher
    get_current_request

  -- `recv_request`, `none` for NULL. Only -1 counts as a failure of `receive_header`.
  unfoldable pub recv_request : Cmd Session (Option Request)
  unfolding dispatch_received
  recv_request = do
    ret ← receive_header env
    if is_minus_one ret then pure none else do r ← dispatch_received; pure (some r)
