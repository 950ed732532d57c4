-- ===== src/Tests/Table.antt =====
-- The theorems on the protocol's names and on the hash table, at concrete inputs.
use rdma_kv_store.Base.{◌≡◌, refl, ◌%◌, ◌^◌, true, [], ◌∷◌, some, arith, codes}
use rdma_kv_store.Machine.{done, Returns}
use rdma_kv_store.Hash.State.{null}
use rdma_kv_store.Hash.Table.{init_hashtable, hash, search_loop, search_key}
use rdma_kv_store.Hash.Function.{djb2, bucket_of, hash-djb2}
use rdma_kv_store.Hash.Entries.{remove_item}
use rdma_kv_store.Hash.Chain.{lookup, addr_of, search_loop-lookup}
use rdma_kv_store.Hash.Model.{chain, search_key-Models}
use rdma_kv_store.Hash.Init.{InitResult, init_hashtable-InitResult}
use rdma_kv_store.Hash.Spec.{remove_spec}
use rdma_kv_store.Hash.Remove.{Leaves, remove_item-Leaves}
use rdma_kv_store.Tests.Fixture.{
  key_k, key_kk, key_k-cstr, key_kk-cstr, locks, locks_idle, cell_kk, cell_kk-IsCell, one_chain,
  one_store, one_store-Models, one_chain-IsEnough,
}

hash-djb2_example : hash key_kk ≡ some (djb2 5381 (codes "kk") % 2 ^ 32)
hash-djb2_example = hash-djb2 key_kk (codes "kk") key_kk-cstr

search_loop-lookup_example :
    search_loop 2 key_k 1 16 one_store
    ≡ done (addr_of (lookup (codes "k") (cell_kk ∷ []))) one_store
search_loop-lookup_example =
    search_loop-lookup 2 one_store key_k (codes "k") null (cell_kk ∷ [])
      (cell_kk-IsCell, refl, refl, tt) key_k-cstr (omega arith)

search_key-Models_example :
    search_key 4 key_kk 2 one_store
    ≡ done (addr_of (lookup (codes "kk") (chain one_chain (bucket_of (codes "kk") 1)))) one_store
search_key-Models_example =
    search_key-Models one_store one_store-Models 4 key_kk (codes "kk") one_chain-IsEnough
      key_kk-cstr

init_hashtable-InitResult_example :
    Returns
      (InitResult 1 (record { table_ok = true; items_ok = true; locks_ok = true }) one_store)
      (init_hashtable 1 (record { table_ok = true; items_ok = true; locks_ok = true }) one_store)
init_hashtable-InitResult_example =
    init_hashtable-InitResult 1 (record { table_ok = true; items_ok = true; locks_ok = true })
      one_store (omega arith) (omega arith) (ground arith)

remove_item-Leaves_example :
    Returns
      (Leaves 1 locks one_chain
        (bucket_of (codes "kk") 1)
        (remove_spec (codes "kk") (chain one_chain (bucket_of (codes "kk") 1))))
      (remove_item 4 key_kk 2 one_store)
remove_item-Leaves_example =
    remove_item-Leaves 1 locks one_chain one_store 4 key_kk (codes "kk") one_store-Models
      key_kk-cstr one_chain-IsEnough (locks_idle (bucket_of (codes "kk") 1))
