-- ===== src/Hash/State.antt =====
-- The state of the hash table (src/server/hash.h): items on an explicit heap, the table with its
-- buckets and mutexes, and the reads and writes that the code is made of.
use rdma_kv_store.Base.{
  ℕ, zero, suc, Bool, true, false, List, Option, none, some, ◌==◌, if◌then◌else◌, get_elem?, set,
}
use rdma_kv_store.Machine.{
  Cmd, null_pointer, use_after_free, out_of_bounds, done, fault, blocked, ◌>>=◌, require,
}

abbrev pub Ptr : Type 0
Ptr = ℕ

abbrev pub null : Ptr
null = 0

-- `pthread_rwlock_t`; `readers n` is held by `n + 1` readers.
pub data RwLock : Type 0 where
  unlocked : RwLock
  readers : ℕ → RwLock
  writer : RwLock

-- `pthread_rwlock_trywrlock`, `none` where it returns non-zero
abbrev pub try_wrlock : RwLock → Option RwLock
try_wrlock unlocked = some writer
try_wrlock (readers n) = none
try_wrlock writer = none

-- `pthread_rwlock_tryrdlock`
abbrev pub try_rdlock : RwLock → Option RwLock
try_rdlock unlocked = some (readers 0)
try_rdlock (readers n) = some (readers (suc n))
try_rdlock writer = none

-- `pthread_rwlock_unlock`, which gives back one hold, whoever has it
abbrev pub rw_unlock : RwLock → RwLock
rw_unlock unlocked = unlocked
rw_unlock (readers zero) = unlocked
rw_unlock (readers (suc n)) = readers n
rw_unlock writer = unlocked

-- `hash_item_t`. A `char *` that owns its buffer is the buffer, `none` for NULL.
pub record HashItem : Type 0 where
  pub next : Ptr
  pub prev : Ptr
  pub key : Option (List ℕ)
  pub value : Option (List ℕ)
  pub value_size : ℕ
  pub rwlock : RwLock

-- `hashtable_t`. A mutex is true while it is held.
pub record HashTable : Type 0 where
  pub capacity : ℕ
  pub items : List Ptr
  pub locks : List Bool

abbrev pub Heap : Type 0
Heap = Ptr → Option HashItem

-- A `hashtable_t *`.
pub data TablePtr : Type 0 where
  null_table : TablePtr
  -- the memory was given back, and the pointer still leads there
  freed_table : TablePtr
  live : HashTable → TablePtr

-- The global `ht`, and the items.
pub record Store : Type 0 where
  pub ht : TablePtr
  pub heap : Heap

unfoldable pub write : Heap → Ptr → Option HashItem → Heap
write h p c a = if a == p then c else h a

-- `*p`
unfoldable pub load : Ptr → Cmd Store HashItem
load p s = if p == null then fault null_pointer else require null_pointer (s.heap p) s

-- A write of the item at `p`; `none` gives the address back.
abbrev pub store : Ptr → Option HashItem → Cmd Store (Unit {0})
store p c s = done tt (record s { heap = write s.heap p c })

-- `*ht`
unfoldable pub table : Cmd Store HashTable
table s = follow s.ht s
  where
    follow : TablePtr → Cmd Store HashTable
    follow null_table s = fault null_pointer
    follow freed_table s = fault use_after_free
    follow (live t) s = done t s

-- `ht->items[i]`
unfoldable pub item_at : ℕ → Cmd Store Ptr
unfolding table
item_at i = do t ← table; require out_of_bounds (get_elem? t.items i)

-- `ht->items[i] = p`
unfoldable pub set_item : ℕ → Ptr → Cmd Store (Unit {0})
unfolding item_at table
set_item i p = do
  _ ← item_at i
  t ← table
  λ s. done tt (record s { ht = live (record t { items = set t.items i p }) })

-- `pthread_mutex_lock(&ht->locks[i])`
unfoldable pub mutex_lock : ℕ → Cmd Store (Unit {0})
unfolding table
mutex_lock i = do
  t ← table
  held ← require out_of_bounds (get_elem? t.locks i)
  if held then (λ s. blocked) else λ s.
      done tt (record s { ht = live (record t { locks = set t.locks i true }) })

-- `pthread_mutex_unlock(&ht->locks[i])`
unfoldable pub mutex_unlock : ℕ → Cmd Store (Unit {0})
unfolding table
mutex_unlock i = do
  t ← table
  _ ← require out_of_bounds (get_elem? t.locks i)
  λ s. done tt (record s { ht = live (record t { locks = set t.locks i false }) })
