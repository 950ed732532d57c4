-- ===== src/KvStore/Handlers.antt =====
-- `set_request`, `get_request` and `del_request` of src/server/kvstore.c.
-- The response is passed and returned; what `malloc` returns is an argument.
use rdma_kv_store.Base.{ℕ, List, Option, none, some, ◌==◌, if◌then◌else◌, ℤ, pos, negsuc, is_neg}
use rdma_kv_store.Machine.{
  Cmd, null_pointer, out_of_bounds, pure, fault, ◌>>=◌, ◌>>◌, require, memcpy,
}
use rdma_kv_store.Common.{Request, Response, ok, key_error}
use rdma_kv_store.Hash.State.{
  Ptr, null, RwLock, try_wrlock, try_rdlock, rw_unlock, HashItem, Store, load, store,
}
use rdma_kv_store.Hash.Table.{search_key}
use rdma_kv_store.Hash.Entries.{EntryAllocs, get_key_entry, remove_item}

abbrev pub key_error_response : Response → Response
key_error_response r = record r { code = key_error }

-- What the allocations of one SET return; the last is `malloc(MSG_SIZE)`.
pub record SetAllocs : Type 0 where
  pub entry : EntryAllocs
  pub value_buf : Option (List ℕ)

-- `set_request` after `pthread_rwlock_trywrlock`
unfoldable pub set_locked :
    SetAllocs → Ptr → HashItem → Option RwLock → Request → Response → Cmd Store (ℤ × Response)
set_locked a p item none request response = pure (negsuc 0, key_error_response response)
set_locked a p item (some lock) request response = do
  store p (some (record item { rwlock = lock }))
  buf ← require null_pointer a.value_buf
  value ← require out_of_bounds (memcpy buf request.msg request.msg_len)
  store p (
      some
        (record item { value = some value; value_size = request.msg_len; rwlock = rw_unlock lock }))
  pure (pos 0, record response { code = ok })

-- `memcpy(response->msg, item->value, item->value_size)`, which reads nothing of a NULL value
-- whose size is 0
unfoldable pub copy_value : Option (List ℕ) → List ℕ → ℕ → Cmd Store (List ℕ)
copy_value none dst n = if n == 0 then pure dst else λ s. fault null_pointer
copy_value (some value) dst n = require out_of_bounds (memcpy dst value n)

-- `get_request` after `pthread_rwlock_tryrdlock`
unfoldable pub get_locked : Ptr → HashItem → Option RwLock → Response → Cmd Store Response
get_locked p item none response = pure (key_error_response response)
get_locked p item (some lock) response = do
  store p (some (record item { rwlock = lock }))
  msg ← copy_value item.value response.msg item.value_size
  store p (some (record item { rwlock = rw_unlock lock }))
  pure (record { code = ok; msg = msg; msg_len = item.value_size })

module _ (fuel : ℕ) where
  unfoldable pub set_request : SetAllocs → Request → Response → Cmd Store (ℤ × Response)
  unfolding set_locked
  set_request a request response = do
    p ← get_key_entry fuel a.entry request.key request.key_len
    item ← load p
    set_locked a p item (try_wrlock item.rwlock) request response

  unfoldable pub get_request : Request → Response → Cmd Store Response
  unfolding get_locked
  get_request request response = do
    p ← search_key fuel request.key request.key_len
    if p == null
        then pure (key_error_response response)
        else do item ← load p; get_locked p item (try_rdlock item.rwlock) response

  unfoldable pub del_request : Request → Response → Cmd Store Response
  del_request request response = do
    removed ← remove_item fuel request.key request.key_len
    if is_neg removed
        then pure (key_error_response response)
        else pure (record response { code = ok })
