-- ===== src/Client/Tcp.antt =====
-- The TCP client: src/client/tcp_client_utils.c.
use rdma_kv_store.Base.{ℤ, negsuc, ◌||◌, is_neg, is_int, truthy}
use rdma_kv_store.Verbs.{
  socket, calloc, connect, write_request, read_response, close_fd, free, Prog, ◌>>=◌, ◌>>◌, pure,
  check, check_errno, invoke, obtain, gets, function,
}
use rdma_kv_store.Setup.{sizeof_request, sizeof_response}
use rdma_kv_store.Client.{Client, set_tcp}

module _ {R : Type 0} where
  -- The results of `calloc` are not looked at.
  unfoldable pub tcp_client_prepare_connection : Prog Client R ℤ
  tcp_client_prepare_connection = function do
    fd ← invoke socket
    set_tcp λ c. record c { socket = fd }
    check (is_neg fd) (negsuc 0)
    request ← obtain (calloc sizeof_request)
    set_tcp λ c. record c { request = request }
    response ← obtain (calloc sizeof_response)
    set_tcp λ c. record c { response = response }
    pure fd

  unfoldable pub tcp_client_connect_to_server : Prog Client R ℤ
  tcp_client_connect_to_server = function do
    fd ← gets λ s. s.tcp_conn.socket
    ret ← invoke (connect fd)
    check (truthy ret) ret
    pure ret

  -- One call of `write`; a part of the request counts as all of it.
  unfoldable pub tcp_send_request : Prog Client R ℤ
  tcp_send_request = function do
    fd ← gets λ s. s.tcp_conn.socket
    ret ← invoke (write_request fd)
    check_errno (is_neg ret || is_int ret 0)
    pure ret

  -- One call of `read`; a part of the response counts as all of it.
  unfoldable pub tcp_receive_response : Prog Client R ℤ
  tcp_receive_response = function do
    fd ← gets λ s. s.tcp_conn.socket
    ret ← invoke (read_response fd)
    check_errno (is_neg ret || is_int ret 0)
    pure ret

  unfoldable pub tcp_client_disconnect_and_clean : Prog Client R ℤ
  tcp_client_disconnect_and_clean = function do
    c ← gets λ s. s.tcp_conn
    ret ← invoke (close_fd c.socket)
    _ ← invoke (free c.request)
    _ ← invoke (free c.response)
    pure ret
