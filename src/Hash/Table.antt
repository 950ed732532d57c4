-- ===== src/Hash/Table.antt =====
-- `init_hashtable`, `hash`, `get_bucket` and `search` of src/server/hash.c.
-- The walk along a bucket runs on fuel.
use rdma_kv_store.Base.{
  ℕ, zero, suc, ◌+◌, ◌-◌, ◌*◌, ◌%◌, ◌^◌, Bool, false, ◌&&◌, not, List, [], ◌∷◌, Option, none, some,
  ◌==◌, ltb, if◌then◌else◌, replicate, ℤ, pos, negsuc,
}
use rdma_kv_store.Machine.{
  Cmd, null_pointer, use_after_free, out_of_bounds, division_by_zero, done, fault, out_of_fuel,
  pure, ◌>>=◌, require,
}
use rdma_kv_store.Common.CString.{strncmp_eq}
use rdma_kv_store.Hash.State.{
  Ptr, null, TablePtr, null_table, freed_table, live, Store, load, table, item_at,
}

-- What the three `calloc` calls of `init_hashtable` return: true for memory.
pub record InitAllocs : Type 0 where
  pub table_ok : Bool
  pub items_ok : Bool
  pub locks_ok : Bool

-- `if (ht != NULL) { free(...); ... }`: the old table is freed, and none of its items. After a call
-- that failed at the second or third allocation, `ht` leads to freed memory, which is then used.
unfoldable pub free_old : TablePtr → Cmd Store (Unit {0})
free_old freed_table s = fault use_after_free
free_old null_table s = done tt s
free_old (live t) s = done tt s

-- `init_hashtable` from the first `calloc` on. The capacity is a `size_t`, and is stored as an
-- `unsigned int`. A `calloc` of the table that fails with capacity 0 goes on to write through NULL.
unfoldable pub make_table : ℕ → InitAllocs → Cmd Store ℤ
make_table capacity a s =
    if not a.table_ok
    then (if capacity == 0
        then fault null_pointer
        else done (negsuc 0) (record s { ht = null_table }))
    else if not a.items_ok && not (capacity == 0)
    then done (negsuc 1) (record s { ht = freed_table })
    else if not a.locks_ok && not (capacity == 0)
    then done (negsuc 2) (record s { ht = freed_table })
    else done (pos 0) (record s {
      ht = live (record {
        capacity = capacity % 2 ^ 32;
        items = replicate capacity null;
        locks = replicate capacity false;
      });
    })

unfoldable pub init_hashtable : ℕ → InitAllocs → Cmd Store ℤ
unfolding free_old make_table
init_hashtable capacity a s = (free_old s.ht >>= λ _. make_table capacity a) s

-- A `char` of x86 is signed: the value that `c` has in unsigned arithmetic.
abbrev pub char_val : ℕ → ℕ
char_val c = if ltb c 128 then c else c + 2 ^ 32 - 256

-- `((hash << 5) + hash) + c` on `unsigned int`
unfoldable pub hash_step : ℕ → ℕ → ℕ
hash_step h c = (((h * 2 ^ 5) % 2 ^ 32 + h) % 2 ^ 32 + char_val c) % 2 ^ 32

-- `none` is a read past the end of the buffer.
unfoldable pub hash_loop : ℕ → List ℕ → Option ℕ
hash_loop h [] = none
hash_loop h (zero ∷ bs) = some h
hash_loop h (suc c ∷ bs) = hash_loop (hash_step h (suc c)) bs

unfoldable pub hash : List ℕ → Option ℕ
unfolding hash_loop
hash str = hash_loop 5381 str

unfoldable pub get_bucket : List ℕ → Cmd Store ℕ
unfolding table
get_bucket key = do
  hashed ← require out_of_bounds (hash key)
  t ← table
  if t.capacity == 0 then (λ s. fault division_by_zero) else pure (hashed % t.capacity)

-- The `while` loop of `search`.
unfoldable pub search_loop : ℕ → List ℕ → ℕ → Ptr → Cmd Store Ptr
search_loop zero key key_len current = λ s. out_of_fuel
search_loop (suc fuel) key key_len current = if current == null then pure null else do
  item ← load current
  item_key ← require null_pointer item.key
  same ← require out_of_bounds (strncmp_eq key_len item_key key)
  if same then pure current else search_loop fuel key key_len item.next

module _ (fuel : ℕ) where
  unfoldable pub search_key : List ℕ → ℕ → Cmd Store Ptr
  unfolding get_bucket item_at search_loop
  search_key key key_len = do
    bucket ← get_bucket key
    head ← item_at bucket
    search_loop fuel key key_len head
