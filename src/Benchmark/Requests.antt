-- ===== src/Benchmark/Requests.antt =====
-- The requests of a benchmark client: `make_get_request`, `make_set_request` and
-- `make_expected_response` of src/benchmarking/instance.c.
use rdma_kv_store.Base.{
  false, replicate, ℕ, zero, suc, Option, none, some, List, ◌++◌, codes, drop, ℤ, pos, negsuc,
  decimal, int_text, read_int,
}
use rdma_kv_store.Common.{
  Method, unk, set, get, del, ping, dump, rst, exit, setopt, key_size, msg_size, Request, ok,
  Response,
}
use rdma_kv_store.Common.Printed.{sprintf, strlen}

module _ {A B : Type 0} where
  infixl 5 ◌>>=◌
  abbrev pub ◌>>=◌ : Option A → (A → Option B) → Option B
  none >>= k = none
  some a >>= k = k a

-- `calloc(1, sizeof(struct request))`
abbrev pub zero_request : Request
zero_request = record {
  client_id = 0;
  method = unk;
  key = replicate key_size 0;
  msg = replicate msg_size 0;
  key_len = 0;
  msg_len = 0;
  connection_close = false;
}

-- "Key from instance %d count %d"
unfoldable pub key_text : ℕ → ℤ → List ℕ
key_text instance_nr count =
    codes "Key from instance " ++ (decimal instance_nr ++ (codes " count " ++ int_text count))

-- "Message from instance %d count %d"
unfoldable pub msg_text : ℕ → ℤ → List ℕ
msg_text instance_nr count =
    codes "Message from instance " ++ (decimal instance_nr ++ (codes " count " ++ int_text count))

-- The request of the connection, for the number of its instance; `none` where a text does not fit
-- its array.
unfoldable pub make_get_request : ℕ → ℤ → Request → Option Request
make_get_request instance_nr count request = do
  key ← sprintf request.key (key_text instance_nr count)
  key_len ← strlen key
  some (record request {
    method = get;
    key = key;
    key_len = key_len;
    msg_len = 0;
    client_id = instance_nr;
  })

unfoldable pub make_set_request : ℕ → ℤ → Request → Option Request
make_set_request instance_nr count request = do
  key ← sprintf request.key (key_text instance_nr count)
  key_len ← strlen key
  msg ← sprintf request.msg (msg_text instance_nr count)
  msg_len ← strlen msg
  some (record request {
    method = set;
    key = key;
    key_len = key_len;
    msg = msg;
    msg_len = msg_len;
    client_id = instance_nr;
  })

-- `x - 1`
abbrev pub pred_ℤ : ℤ → ℤ
pred_ℤ (pos zero) = negsuc 0
pred_ℤ (pos (suc n)) = pos n
pred_ℤ (negsuc n) = negsuc (suc n)

-- Nothing calls it.
unfoldable pub make_expected_response : Response → Method → ℤ → Option Response
make_expected_response response unk count = some response
make_expected_response response set count = some (record response { code = ok })
make_expected_response response get count = do
  msg ← sprintf response.msg (msg_text 0 (pred_ℤ count))
  msg_len ← strlen msg
  some (record response { code = ok; msg = msg; msg_len = msg_len })
make_expected_response response del count = some (record response { code = ok })
make_expected_response response ping count = some (record response { code = ok })
make_expected_response response dump count = some response
make_expected_response response rst count = some (record response { code = ok })
make_expected_response response exit count = some (record response { code = ok })
make_expected_response response setopt count = some (record response { code = ok })

-- The instance and the count that a key names.
unfoldable pub read_key : List ℕ → ℤ × ℤ
read_key text =
    let (instance_nr, rest) = read_int (drop 18 text) in (instance_nr, (read_int (drop 7 rest)).0)
