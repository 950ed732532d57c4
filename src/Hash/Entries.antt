-- ===== src/Hash/Entries.antt =====
-- `remove_item` and `get_key_entry` of src/server/hash.c.
-- What `calloc` and `malloc` return is an argument.
use rdma_kv_store.Base.{
  ℕ, List, Option, none, some, ◌==◌, if◌then◌else◌, get_elem?, set, ℤ, pos, negsuc,
}
use rdma_kv_store.Machine.{Cmd, null_pointer, out_of_bounds, pure, ◌>>=◌, ◌>>◌, require, memcpy}
use rdma_kv_store.Hash.State.{
  Ptr, null, RwLock, unlocked, try_wrlock, rw_unlock, HashItem, Store, load, store, item_at,
  set_item, mutex_lock, mutex_unlock,
}
use rdma_kv_store.Hash.Table.{get_bucket, search_key}

-- `if (item->next) item->next->prev = item->prev;`
unfoldable pub relink_next : Ptr → Cmd Store (Unit {0})
relink_next p = do
  item ← load p
  if item.next == null
      then pure tt
      else do n ← load item.next; store item.next (some (record n { prev = item.prev }))

-- `if (item->prev) item->prev->next = item->next;`
unfoldable pub relink_prev : Ptr → Cmd Store (Unit {0})
relink_prev p = do
  item ← load p
  if item.prev == null
      then pure tt
      else do n ← load item.prev; store item.prev (some (record n { next = item.next }))

-- `if (item == ht->items[bucket]) ht->items[bucket] = item->next;`
unfoldable pub relink_head : ℕ → Ptr → Cmd Store (Unit {0})
relink_head bucket p = do
  head ← item_at bucket
  if head == p then (do item ← load p; set_item bucket item.next) else pure tt

-- The part of `remove_item` that unlinks and frees the item.
unfoldable pub unlink_item : ℕ → Ptr → HashItem → RwLock → Cmd Store ℤ
unlink_item bucket p item lock = do
  store p (some (record item { value = none; value_size = 0; key = none; rwlock = lock }))
  relink_next p
  relink_prev p
  relink_head bucket p
  store p none
  mutex_unlock bucket
  pure (pos 0)

-- `remove_item` after `pthread_rwlock_trywrlock`. Where the item cannot be locked, the code
-- unlocks it.
unfoldable pub try_unlink : ℕ → Ptr → HashItem → Option RwLock → Cmd Store ℤ
try_unlink bucket p item none = do
  store p (some (record item { rwlock = rw_unlock item.rwlock }))
  mutex_unlock bucket
  pure (negsuc 0)
try_unlink bucket p item (some lock) = unlink_item bucket p item lock

-- `remove_item` after the search.
unfoldable pub remove_found : ℕ → Ptr → Cmd Store ℤ
unfolding try_unlink
remove_found bucket p =
    if p == null
    then (do mutex_unlock bucket; pure (negsuc 0))
    else do item ← load p; try_unlink bucket p item (try_wrlock item.rwlock)

-- What the `calloc` of the entry and the `malloc` of its key return.
pub record EntryAllocs : Type 0 where
  pub entry : Ptr
  pub key_buf : Option (List ℕ)

-- `calloc(1, sizeof(hash_item_t))`
abbrev pub zero_item : HashItem
zero_item = record {
  next = null;
  prev = null;
  key = none;
  value = none;
  value_size = 0;
  rwlock = unlocked;
}

-- The copy of the key: `memcpy(entry->key, key, key_len); entry->key[key_len] = '\0';`
unfoldable pub copy_key : List ℕ → ℕ → List ℕ → Cmd Store (List ℕ)
copy_key key key_len buf = do
  copied ← require out_of_bounds (memcpy buf key key_len)
  _ ← require out_of_bounds (get_elem? copied key_len)
  pure (set copied key_len 0)

-- `if (item_head != NULL) { item_head->prev = entry; entry->next = item_head; }`
unfoldable pub link_front : Ptr → Ptr → Cmd Store (Unit {0})
link_front entry item_head = if item_head == null then pure tt else do
  head ← load item_head
  store item_head (some (record head { prev = entry }))
  e ← load entry
  store entry (some (record e { next = item_head }))

-- The new entry of `get_key_entry`, put in front of the bucket.
unfoldable pub insert_entry : EntryAllocs → ℕ → Ptr → List ℕ → ℕ → Cmd Store (Unit {0})
insert_entry a bucket item_head key key_len = do
  store a.entry (some zero_item)
  entry ← load a.entry
  buf ← require null_pointer a.key_buf
  text ← copy_key key key_len buf
  store a.entry (some (record entry { key = some text; prev = null; next = null; value = none }))
  link_front a.entry item_head
  set_item bucket a.entry

module _ (fuel : ℕ) where
  unfoldable pub remove_item : List ℕ → ℕ → Cmd Store ℤ
  remove_item key key_len = do
    bucket ← get_bucket key
    mutex_lock bucket
    item ← search_key fuel key key_len
    remove_found bucket item

  unfoldable pub get_key_entry : EntryAllocs → List ℕ → ℕ → Cmd Store Ptr
  get_key_entry a key key_len = do
    bucket ← get_bucket key
    mutex_lock bucket
    item_head ← item_at bucket
    entry ← search_key fuel key key_len
    if entry == null
        then (do insert_entry a bucket item_head key key_len; mutex_unlock bucket; pure a.entry)
        else do mutex_unlock bucket; pure entry
