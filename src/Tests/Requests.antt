-- ===== src/Tests/Requests.antt =====
-- The theorems on requests, at concrete inputs.
use rdma_kv_store.Base.{ℕ, ◌≡◌, refl, [], ◌∷◌, none, some, arith, codes, pos, List, set}
use rdma_kv_store.Machine.{fault, out_of_bounds, Returns}
use rdma_kv_store.Common.CString.{starts_with}
use rdma_kv_store.Hash.State.{writer, try_wrlock}
use rdma_kv_store.Hash.Function.{bucket_of}
use rdma_kv_store.Hash.Chain.{lookup}
use rdma_kv_store.Hash.Spec.{remove_spec}
use rdma_kv_store.Hash.Insert.{new_cell, get_key_entry-absent}
use rdma_kv_store.Hash.Entries.{get_key_entry}
use rdma_kv_store.Hash.Model.{Chains, chain, Models}
use rdma_kv_store.Hash.Init.{fresh_store}
use rdma_kv_store.KvStore.Handlers.{key_error_response, set_request, get_request, del_request}
use rdma_kv_store.KvStore.Get.{get_spec, get_request-Models}
use rdma_kv_store.KvStore.Set.{filled, ok_response, SetFound, set_request-found, set_request-absent}
use rdma_kv_store.KvStore.Stored.{Stored, set_request-Stored}
use rdma_kv_store.KvStore.Del.{del_spec, del_request-Models}
use rdma_kv_store.KvStore.Session.{
  value_response, set_then_get, del_then_get, get-set, get-set_other, get-del,
}
use rdma_kv_store.KvStore.Limits.{set_request-overflow}
use rdma_kv_store.Tests.Fixture.{
  key_k, key_kk, key_m, key_k-cstr, key_kk-cstr, request_of, good_k, good_m, no_items, no_chains,
  locks, empty_store-Models, empty_chain, no_chains-IsEnough, locks_idle, cell_kk, one_chain,
  one_store, one_store-Models, one_chain-IsEnough, bucket_zero, entry_allocs, set_allocs,
  set_allocs-AllocatesValue, entry_allocs-Allocates, answer,
}
use rdma_kv_store.KvStore.Get.{IsRequest}

missing : (t : List ℕ) → lookup t (chain no_chains (bucket_of t 1)) ≡ none
missing t = rw (empty_chain (bucket_of t 1)) (unfold lookup in refl)

present : lookup (codes "kk") (chain one_chain (bucket_of (codes "kk") 1)) ≡ some cell_kk
present = rw (bucket_zero (codes "kk")) (unfold lookup starts_with in refl)

good_kk : IsRequest (request_of key_kk 2 3) (codes "kk")
good_kk = record {
  key_text = key_kk-cstr;
  key_len = refl;
  msg_fits = omega arith;
  msg_width = refl;
}

get-set_example :
    Returns
      (λ r s'. r ≡ value_response (request_of key_k 1 3).msg 3 answer)
      (set_then_get 4 set_allocs
        (request_of key_k 1 3)
        (request_of key_k 1 3)
        answer
        (fresh_store 1 no_items))
get-set_example =
    get-set 1 locks no_chains (fresh_store 1 no_items) 4 set_allocs (request_of key_k 1 3)
      (request_of key_k 1 3) (codes "k") (codes "k") answer empty_store-Models good_k good_k
      (λ i. rw (empty_chain i) (omega arith)) (locks_idle (bucket_of (codes "k") 1))
      set_allocs-AllocatesValue entry_allocs-Allocates (rw (missing (codes "k")) tt) refl refl

get-set_other_example :
    Returns
      (λ r s'. r ≡ get_spec (codes "m") (chain no_chains (bucket_of (codes "m") 1)) answer)
      (set_then_get 4 set_allocs
        (request_of key_k 1 3)
        (request_of key_m 1 0)
        answer
        (fresh_store 1 no_items))
get-set_other_example =
    get-set_other 1 locks no_chains (fresh_store 1 no_items) 4 set_allocs (request_of key_k 1 3)
      (request_of key_m 1 0) (codes "k") (codes "m") answer empty_store-Models good_k good_m
      (λ i. rw (empty_chain i) (omega arith)) (locks_idle (bucket_of (codes "k") 1))
      set_allocs-AllocatesValue entry_allocs-Allocates (rw (missing (codes "k")) tt) refl
      (unfold starts_with in refl) (unfold starts_with in refl)

get-del_example :
    Returns
      (λ r s'. r ≡ (ok_response answer, key_error_response answer))
      (del_then_get 4 (request_of key_kk 2 3) (request_of key_kk 2 3) answer one_store)
get-del_example =
    get-del 1 locks one_chain one_store 4 (request_of key_kk 2 3) (request_of key_kk 2 3)
      (codes "kk") answer [] [] cell_kk one_store-Models good_kk good_kk one_chain-IsEnough
      (locks_idle (bucket_of (codes "kk") 1)) (rw (bucket_zero (codes "kk")) refl)
      (unfold lookup in refl) (unfold starts_with in refl) (unfold lookup in refl) refl refl

set_request-Stored_example :
    Returns
      (λ r s'.
        (r ≡ (pos 0, ok_response answer))
        × ((cs' : Chains) × Models 1 locks cs' s'
            × Stored 1 no_chains (codes "k") (request_of key_k 1 3) cs'))
      (set_request 4 set_allocs (request_of key_k 1 3) answer (fresh_store 1 no_items))
set_request-Stored_example =
    set_request-Stored 1 locks no_chains (fresh_store 1 no_items) 4 set_allocs
      (request_of key_k 1 3) (codes "k") answer empty_store-Models good_k
      (λ i. rw (empty_chain i) (omega arith)) (locks_idle (bucket_of (codes "k") 1))
      set_allocs-AllocatesValue entry_allocs-Allocates (rw (missing (codes "k")) tt)

get_request-Models_example :
    Returns
      (λ r s'.
        (r ≡ get_spec (codes "kk") (chain one_chain (bucket_of (codes "kk") 1)) answer)
        × Models 1 locks one_chain s')
      (get_request 4 (request_of key_kk 2 3) answer one_store)
get_request-Models_example =
    get_request-Models 1 locks one_chain one_store 4 (request_of key_kk 2 3) (codes "kk") answer
      one_store-Models good_kk one_chain-IsEnough refl

set_request-found_example :
    Returns
      (SetFound 1 locks one_chain
        (bucket_of (codes "kk") 1)
        (codes "kk")
        cell_kk
        (request_of key_kk 2 3)
        set_allocs-AllocatesValue.buf
        answer
        (try_wrlock cell_kk.rwlock))
      (set_request 4 set_allocs (request_of key_kk 2 3) answer one_store)
set_request-found_example =
    set_request-found 1 locks one_chain one_store 4 set_allocs (request_of key_kk 2 3) (codes "kk")
      answer one_store-Models good_kk one_chain-IsEnough (locks_idle (bucket_of (codes "kk") 1))
      set_allocs-AllocatesValue cell_kk present

set_request-absent_example :
    Returns
      (λ r s'.
        (r ≡ (pos 0, ok_response answer))
        × ((text : List ℕ) × Models 1 locks
              (set no_chains (bucket_of (codes "k") 1) (
                filled
                  (request_of key_k 1 3)
                  set_allocs-AllocatesValue.buf
                  (new_cell 32 text (codes "k"))
                ∷ chain no_chains (bucket_of (codes "k") 1)))
              s'))
      (set_request 4 set_allocs (request_of key_k 1 3) answer (fresh_store 1 no_items))
set_request-absent_example =
    set_request-absent 1 locks no_chains (fresh_store 1 no_items) 4 set_allocs
      (request_of key_k 1 3) (codes "k") answer empty_store-Models good_k
      (λ i. rw (empty_chain i) (omega arith)) (locks_idle (bucket_of (codes "k") 1))
      set_allocs-AllocatesValue (missing (codes "k")) entry_allocs-Allocates

get_key_entry-absent_example :
    Returns
      (λ p s'.
        (p ≡ 32)
        × ((text : List ℕ) × Models 1 locks
              (set no_chains
                (bucket_of (codes "k") 1)
                (new_cell 32 text (codes "k") ∷ chain no_chains (bucket_of (codes "k") 1)))
              s'))
      (get_key_entry 3 entry_allocs key_k 1 (fresh_store 1 no_items))
get_key_entry-absent_example =
    get_key_entry-absent (fresh_store 1 no_items) empty_store-Models 3 entry_allocs key_k
      (codes "k") key_k-cstr no_chains-IsEnough (locks_idle (bucket_of (codes "k") 1))
      (missing (codes "k")) entry_allocs-Allocates

del_request-Models_example :
    Returns
      (λ r s'.
        (r ≡ del_spec (codes "kk") (chain one_chain (bucket_of (codes "kk") 1)) answer)
        × Models 1 locks
            (set one_chain
              (bucket_of (codes "kk") 1)
              (remove_spec (codes "kk") (chain one_chain (bucket_of (codes "kk") 1))).1)
            s')
      (del_request 4 (request_of key_kk 2 3) answer one_store)
del_request-Models_example =
    del_request-Models 1 locks one_chain one_store 4 (request_of key_kk 2 3) (codes "kk") answer
      one_store-Models good_kk one_chain-IsEnough (locks_idle (bucket_of (codes "kk") 1))

set_request-overflow_example :
    set_request 4 set_allocs (request_of key_kk 2 300) answer one_store ≡ fault out_of_bounds
set_request-overflow_example =
    set_request-overflow 1 locks one_chain one_store 4 set_allocs (request_of key_kk 2 300)
      (codes "kk") answer cell_kk writer one_store-Models key_kk-cstr refl refl (omega arith)
      one_chain-IsEnough (locks_idle (bucket_of (codes "kk") 1)) set_allocs-AllocatesValue present
      refl
