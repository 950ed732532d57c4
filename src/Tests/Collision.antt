-- ===== src/Tests/Collision.antt =====
-- "k" and "kyg" share a bucket of the table of 1024 buckets.
use rdma_kv_store.Base.{
  ℕ, ◌≡◌, refl, false, List, [], ◌++◌, some, arith, replicate, codes, get_or-replicate,
}
use rdma_kv_store.Machine.{Returns}
use rdma_kv_store.Common.CString.{cstr}
use rdma_kv_store.Server.{ht_capacity}
use rdma_kv_store.Hash.Function.{djb2, bucket_of}
use rdma_kv_store.Hash.Chain.{Cell, lookup}
use rdma_kv_store.Hash.Init.{fresh_store, fresh_store-Models}
use rdma_kv_store.Hash.Insert.{Allocates}
use rdma_kv_store.Hash.Model.{Chains, chain}
use rdma_kv_store.KvStore.Handlers.{SetAllocs}
use rdma_kv_store.KvStore.Get.{IsRequest}
use rdma_kv_store.KvStore.Set.{AllocatesValue}
use rdma_kv_store.KvStore.Session.{value_response, set_then_get}
use rdma_kv_store.KvStore.Prefix.{get-set_prefix}
use rdma_kv_store.Tests.Fixture.{key_k, request_of, good_k, no_items, answer}

abbrev key_kyg : List ℕ
key_kyg = codes "kyg" ++ replicate 61 0

good_kyg : IsRequest (request_of key_kyg 3 3) (codes "kyg")
unfolding cstr
good_kyg = record { key_text = refl; key_len = refl; msg_fits = omega arith; msg_width = refl }

abbrev empty_chains : Chains
empty_chains = replicate 1024 []

no_chain : (i : ℕ) → chain empty_chains i ≡ []
no_chain i = get_or-replicate {A = List Cell} 1024 i []

abbrev kyg_allocs : SetAllocs
kyg_allocs = record {
  entry = record { entry = 32; key_buf = some (replicate 4 7) };
  value_buf = some (replicate 256 0);
}

kyg_allocs-AllocatesValue : AllocatesValue kyg_allocs
kyg_allocs-AllocatesValue = record { buf = replicate 256 0; value_buf = refl; size = refl }

kyg_allocs-Allocates : Allocates kyg_allocs.entry (fresh_store ht_capacity no_items) 3
kyg_allocs-Allocates = record {
  ne_null = λ e. absurd (omega arith);
  unused = refl;
  buf = replicate 4 7;
  key_buf = refl;
  size = refl;
}

same_bucket : bucket_of (codes "k") 1024 ≡ bucket_of (codes "k" ++ codes "yg") 1024
unfolding bucket_of djb2
same_bucket = refl

get-set_prefix_example :
    Returns
      (λ r s'. r ≡ value_response (request_of key_kyg 3 3).msg 3 answer)
      (set_then_get 4 kyg_allocs
        (request_of key_kyg 3 3)
        (request_of key_k 1 3)
        answer
        (fresh_store ht_capacity no_items))
get-set_prefix_example =
    get-set_prefix ht_capacity (replicate 1024 false) empty_chains
      (fresh_store ht_capacity no_items) 4 kyg_allocs (request_of key_kyg 3 3)
      (request_of key_k 1 3) (codes "k") (codes "yg") answer
      (fresh_store-Models ht_capacity no_items (omega arith)) good_kyg good_k
      (λ i. rw (no_chain i) (omega arith))
      (get_or-replicate 1024 (bucket_of (codes "kyg") 1024) false) kyg_allocs-AllocatesValue
      kyg_allocs-Allocates (rw (no_chain (bucket_of (codes "kyg") 1024)) (unfold lookup in refl))
      same_bucket refl
