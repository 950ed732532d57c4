-- ===== src/KvStore/Prefix.antt =====
-- Keys of which one is a prefix of the other: `search` of src/server/hash.c compares as many characters
-- as the request's key has.
use rdma_kv_store.Base.{
  ℕ, ◌+◌, ◌<◌, ◌≡◌, refl, ◌∙◌, ap, Bool, false, List, [], ◌∷◌, ◌++◌, none, some, arith, length,
  get_or, set, get_or-set, get_or-set_self,
}
use rdma_kv_store.Machine.{Returns, Returns-bind, Returns-mono}
use rdma_kv_store.Common.{Request, Response, msg_size}
use rdma_kv_store.Common.CString.{starts_with_append}
use rdma_kv_store.Hash.State.{Store}
use rdma_kv_store.Hash.Function.{bucket_of, bucket_of-lt}
use rdma_kv_store.Hash.Chain.{lookup}
use rdma_kv_store.Hash.Model.{Chains, chain, Models}
use rdma_kv_store.Hash.Insert.{Allocates, new_cell}
use rdma_kv_store.KvStore.Handlers.{SetAllocs}
use rdma_kv_store.KvStore.Get.{IsRequest, get_spec, read_found, get_request-Models}
use rdma_kv_store.KvStore.Set.{filled, AllocatesValue, set_request-absent}
use rdma_kv_store.KvStore.Session.{value_response, read_stored, set_then_get}

-- A GET of a text that is the front of a key that was just SET, and that shares its bucket, is
-- answered with OK and the message of that key, though the text was never SET. This is over a
-- well-formed table in which the key had no entry and whose mutex for the bucket is free, with
-- fuel for one entry more, memory at hand, keys of length key_len, and a message that fits its 256
-- bytes.
pub get-set_prefix :
    (n : ℕ) (ls : List Bool) (cs : Chains) (s : Store) (fuel : ℕ) (a : SetAllocs)
    (request question : Request) (u w : List ℕ) (response : Response)
    → Models n ls cs s
    → IsRequest request (u ++ w)
    → IsRequest question u
    → ((i : ℕ) → length (chain cs i) + 1 < fuel)
    → get_or ls (bucket_of (u ++ w) n) false ≡ false
    → AllocatesValue a
    → Allocates a.entry s (length (u ++ w))
    → lookup (u ++ w) (chain cs (bucket_of (u ++ w) n)) ≡ none
    → bucket_of u n ≡ bucket_of (u ++ w) n
    → length response.msg ≡ msg_size
    → Returns
        (λ r s'. r ≡ value_response request.msg request.msg_len response)
        (set_then_get fuel a request question response s)
get-set_prefix n ls cs s fuel a request question u w response m good asked enough idle v al absent
      same wide =
    let t = u ++ w in
    let b = bucket_of t n in
    let xs = chain cs b in
    let inside : b < length cs = rw m.width (bucket_of-lt t n m.roomy) in
    Returns-bind
      (set_request-absent n ls cs s fuel a request t response m good (λ i. omega (arith, enough i))
        idle v absent al)
      λ r s1 (_, (text, m1)).
        let c = filled request v.buf (new_cell a.entry.entry text t) in
        let cs' = set cs b (c ∷ xs) in
        let first : chain cs' b ≡ c ∷ xs = get_or-set_self cs b (c ∷ xs) [] inside in
        let short : (i : ℕ) → length (chain cs' i) < fuel =
          (λ i. rw (get_or-set cs b i (c ∷ xs) [] inside) (ground (arith, enough i, enough b))) in
        let hit : lookup u (chain cs' (bucket_of u n)) ≡ some c =
          rw (same, first) (unfold lookup in rw (starts_with_append u w)) in
        Returns-mono (get_request-Models n ls cs' s1 fuel question u response m1 asked short wide)
          λ r' s2 (e, m2).
            e
            ∙ (unfold get_spec in
                (ap (λ o. read_found o response) hit
                  ∙ read_stored c request.msg v.buf request.msg_len response refl refl refl
                      (rw good.msg_width good.msg_fits)))
