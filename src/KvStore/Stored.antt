-- ===== src/KvStore/Stored.antt =====
-- The contract of a SET, in terms of what the keys lead to.
use rdma_kv_store.Base.{
  ℕ, suc, ◌≤◌, ◌<◌, ◌≡◌, refl, inl, inr, Bool, false, List, [], ◌∷◌, ◌++◌, Option, none, some,
  arith, length, take, drop, get_or, set, pos, get_or-set, get_or-set_self, Option-cases,
}
use rdma_kv_store.Machine.{Returns, Returns-mono}
use rdma_kv_store.Common.{Request, Response}
use rdma_kv_store.Common.CString.{starts_with, starts_with_refl, starts_with_comparable}
use rdma_kv_store.Hash.State.{unlocked, writer, try_wrlock, Store}
use rdma_kv_store.Hash.Function.{bucket_of, bucket_of-lt}
use rdma_kv_store.Hash.Chain.{Cell, lookup}
use rdma_kv_store.Hash.Spec.{
  assign, lookup-starts_with, lookup-assign_self, lookup-assign_other, length-assign,
}
use rdma_kv_store.Hash.Model.{Chains, chain, Models, IsEnough}
use rdma_kv_store.Hash.Insert.{Allocates, new_cell}
use rdma_kv_store.KvStore.Handlers.{SetAllocs, set_request}
use rdma_kv_store.KvStore.Get.{IsRequest}
use rdma_kv_store.KvStore.Set.{
  filled, ok_response, AllocatesValue, set_request-found, set_request-absent,
}

-- The entry of the key, if there is one, is held by nobody.
abbrev pub IsFree : Option Cell → Type 0
IsFree none = Unit
IsFree (some c) = c.rwlock ≡ unlocked

-- What a SET promises: the key now leads to the message, keys that are no prefix of it and that it
-- is no prefix of lead where they led, and the chains grow by one entry at most.
pub record Stored (n : ℕ) (cs : Chains) (t : List ℕ) (request : Request) (cs' : Chains)
    : Type 0 where
  pub cell : Cell
  pub buf : List ℕ
  pub found : lookup t (chain cs' (bucket_of t n)) ≡ some cell
  pub free : cell.rwlock ≡ unlocked
  pub value : cell.value ≡ some (take request.msg_len request.msg ++ drop request.msg_len buf)
  pub value_size : cell.value_size ≡ request.msg_len
  pub other :
      (u : List ℕ)
      → starts_with t u ≡ false
      → starts_with u t ≡ false
      → lookup u (chain cs' (bucket_of u n)) ≡ lookup u (chain cs (bucket_of u n))
  pub longer : (i : ℕ) → length (chain cs' i) ≤ suc (length (chain cs i))

assign-Stored :
    (n : ℕ) (cs : Chains) (t : List ℕ) (request : Request) (buf : List ℕ) (c : Cell)
    → bucket_of t n < length cs
    → lookup t (chain cs (bucket_of t n)) ≡ some c
    → c.rwlock ≡ unlocked
    → Stored n cs t request
        (set cs (bucket_of t n) (assign t (filled request buf c) (chain cs (bucket_of t n))))
assign-Stored n cs t request buf c inside e free =
    let b = bucket_of t n in
    let c' = filled request buf c in
    let hit = lookup-starts_with t (chain cs b) c e in
    record {
      cell = c';
      buf = buf;
      found =
          rw (get_or-set_self cs b (assign t c' (chain cs b)) [] inside)
            (lookup-assign_self t (chain cs b) c c' e hit);
      free = free;
      value = refl;
      value_size = refl;
      other = λ u h k.
          let apart : starts_with c.text u ≡ false =
            ground (arith, starts_with_comparable c.text t u) in
          rw (get_or-set cs b (bucket_of u n) (assign t c' (chain cs b)) [] inside)
            (ground (arith, lookup-assign_other t u (chain cs b) c c' e apart apart));
      longer = λ i.
          rw (get_or-set cs b i (assign t c' (chain cs b)) [] inside)
            (ground (arith, length-assign t (chain cs b) c'));
    }

cons-Stored :
    (n : ℕ) (cs : Chains) (t : List ℕ) (request : Request) (buf text : List ℕ) (p : ℕ)
    → bucket_of t n < length cs
    → Stored n cs t request
        (set cs (bucket_of t n) (filled request buf (new_cell p text t) ∷ chain cs (bucket_of t n)))
cons-Stored n cs t request buf text p inside =
    let b = bucket_of t n in
    let c' = filled request buf (new_cell p text t) in
    record {
      cell = c';
      buf = buf;
      found =
          rw (get_or-set_self cs b (c' ∷ chain cs b) [] inside)
            (unfold lookup in rw (starts_with_refl t));
      free = refl;
      value = refl;
      value_size = refl;
      other = λ u h k.
          rw (get_or-set cs b (bucket_of u n) (c' ∷ chain cs b) [] inside)
            (unfold lookup in ground arith);
      longer = λ i. rw (get_or-set cs b i (c' ∷ chain cs b) [] inside) (ground arith);
    }

module _ (n : ℕ) (ls : List Bool) (cs : Chains) (s : Store) (fuel : ℕ) (a : SetAllocs)
    (request : Request) (t : List ℕ) (response : Response) where
  -- Over a well-formed table whose mutex for the key's bucket is free, with more fuel than every
  -- chain is long, a SET whose entry, if there is one, nobody holds, with memory at hand and a
  -- message that fits, ends without a fault, answers OK and keeps its contract: the key leads to
  -- the message, keys that are no prefix of it and that it is no prefix of lead where they led,
  -- and no chain grows by more than one entry.
  pub set_request-Stored :
      Models n ls cs s
      → IsRequest request t
      → IsEnough fuel cs
      → get_or ls (bucket_of t n) false ≡ false
      → AllocatesValue a
      → Allocates a.entry s (length t)
      → IsFree (lookup t (chain cs (bucket_of t n)))
      → Returns
          (λ r s'.
            (r ≡ (pos 0, ok_response response))
            × ((cs' : Chains) × Models n ls cs' s' × Stored n cs t request cs'))
          (set_request fuel a request response s)
  set_request-Stored m good enough idle v al free =
      let b = bucket_of t n in
      let inside : b < length cs = rw m.width (bucket_of-lt t n m.roomy) in
      elim (Option-cases (lookup t (chain cs b))) [
        | inl e ↦
            Returns-mono
              (set_request-absent n ls cs s fuel a request t response m good enough idle v e al)
              λ r s' (answer, (text, m')).
                (answer, (_, m', cons-Stored n cs t request v.buf text a.entry.entry inside))
        | inr (c, e) ↦
            let free' : c.rwlock ≡ unlocked = rw e at free in
            let unheld : try_wrlock c.rwlock ≡ some writer = rw free' in
            Returns-mono
              (rw unheld at
                (set_request-found n ls cs s fuel a request t response m good enough idle v c e))
              λ r s' (answer, m').
                (answer, (_, m', assign-Stored n cs t request v.buf c inside e free'))
      ]
