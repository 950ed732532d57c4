-- ===== src/KvStore/Del.antt =====
-- `del_request` of src/server/kvstore.c.
use rdma_kv_store.Base.{
  ℕ, ◌≡◌, refl, ap, false, List, get_or, set, if◌then◌else◌, is_neg, inl, inr, Bool-cases,
}
use rdma_kv_store.Base.{Bool}
use rdma_kv_store.Machine.{Returns, returns, Returns-bind}
use rdma_kv_store.Common.{Request, Response}
use rdma_kv_store.Hash.State.{Store}
use rdma_kv_store.Hash.Entries.{remove_item}
use rdma_kv_store.Hash.Function.{bucket_of}
use rdma_kv_store.Hash.Spec.{remove_spec}
use rdma_kv_store.Hash.Model.{Chains, chain, Models, IsEnough}
use rdma_kv_store.Hash.Chain.{Cell}
use rdma_kv_store.Hash.Remove.{remove_item-Leaves}
use rdma_kv_store.KvStore.Handlers.{key_error_response, del_request}
use rdma_kv_store.KvStore.Get.{IsRequest}
use rdma_kv_store.KvStore.Set.{ok_response}

-- The response to a DEL of `t` in the bucket `xs`.
unfoldable pub del_spec : List ℕ → List Cell → Response → Response
unfolding remove_spec
del_spec t xs response =
    if is_neg (remove_spec t xs).0 then key_error_response response else ok_response response

-- Over a well-formed table whose mutex for the key's bucket is free, with more fuel than every
-- chain is long, a DEL of a key of length key_len ends without a fault, answers OK where the entry
-- is removed and KEY_ERROR where there is none or somebody holds it, and leaves the bucket that
-- the specification gives.
pub del_request-Models :
    (n : ℕ) (ls : List Bool) (cs : Chains) (s : Store) (fuel : ℕ) (request : Request) (t : List ℕ)
    (response : Response)
    → Models n ls cs s
    → IsRequest request t
    → IsEnough fuel cs
    → get_or ls (bucket_of t n) false ≡ false
    → Returns
        (λ r s'.
          (r ≡ del_spec t (chain cs (bucket_of t n)) response)
          × Models n ls (set cs (bucket_of t n) (remove_spec t (chain cs (bucket_of t n))).1) s')
        (del_request fuel request response s)
unfolding del_request del_spec
del_request-Models n ls cs s fuel request t response m good enough idle =
    rw (ap (λ k. remove_item fuel request.key k s) good.key_len) (
      Returns-bind (remove_item-Leaves n ls cs s fuel request.key t m good.key_text enough idle)
        λ r s1 (answer, m1).
          rw answer (elim (Bool-cases (is_neg (remove_spec t (chain cs (bucket_of t n))).0)) [
            | inl e ↦ rw e (returns (refl, m1))
            | inr e ↦ rw e (returns (refl, m1))
          ]))
