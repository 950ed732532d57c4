-- ===== src/KvStore/Limits.antt =====
-- Requests outside the limits that src/server/kvstore.c takes for granted.
use rdma_kv_store.Base.{ℕ, ◌<◌, ◌≡◌, ap, Bool, List, some, false, length, get_or}
use rdma_kv_store.Machine.{fault, out_of_bounds, memcpy-none, Returns-run}
use rdma_kv_store.Common.{Request, Response, msg_size}
use rdma_kv_store.Common.CString.{cstr}
use rdma_kv_store.Hash.State.{null, RwLock, try_wrlock, Store}
use rdma_kv_store.Hash.Function.{bucket_of, bucket_of-lt}
use rdma_kv_store.Hash.Entries.{get_key_entry}
use rdma_kv_store.Hash.Chain.{Cell, lookup, lookup-has, load-head}
use rdma_kv_store.Hash.Splice.{lookup-IsSplit}
use rdma_kv_store.Hash.Model.{Chains, chain, Models, IsEnough}
use rdma_kv_store.Hash.Update.{item_at_cell}
use rdma_kv_store.Hash.Insert.{get_key_entry-found}
use rdma_kv_store.KvStore.Handlers.{SetAllocs, set_locked, set_request}
use rdma_kv_store.KvStore.Set.{AllocatesValue}

-- Over a well-formed table whose mutex for the key's bucket is free, with more fuel than every
-- chain is long, a SET of a key whose entry is there and free, with memory for a value and a
-- msg_len beyond the 256 bytes of the message array, reads out of bounds.
pub set_request-overflow :
    (n : ℕ) (ls : List Bool) (cs : Chains) (s : Store) (fuel : ℕ) (a : SetAllocs)
    (request : Request) (t : List ℕ) (response : Response) (c : Cell) (lock : RwLock)
    → Models n ls cs s
    → cstr request.key ≡ some t
    → request.key_len ≡ length t
    → length request.msg ≡ msg_size
    → msg_size < request.msg_len
    → IsEnough fuel cs
    → get_or ls (bucket_of t n) false ≡ false
    → AllocatesValue a
    → lookup t (chain cs (bucket_of t n)) ≡ some c
    → try_wrlock c.rwlock ≡ some lock
    → set_request fuel a request response s ≡ fault out_of_bounds
unfolding set_request set_locked
set_request-overflow n ls cs s fuel a request t response c lock m key_text key_len wide large enough
      idle v e free =
    let b = bucket_of t n in
    let inside = bucket_of-lt t n m.roomy in
    let (before, after, sp) = lookup-IsSplit t (chain cs b) c e in
    let (p, s1, run, (at_c, m1, same1)) =
      Returns-run (get_key_entry-found s m fuel a.entry request.key t key_text enough idle c e) in
    let here = item_at_cell s1 m1 b inside before after c sp.whole in
    let real = (lookup-has t s1.heap null (chain cs b) null c (m1.linked b) e).0 in
    rw (
      ap (λ k. get_key_entry fuel a.entry request.key k s) key_len,
      run,
      at_c,
      load-head s1 real.ne_null here,
      free,
      v.value_buf,
      memcpy-none v.buf request.msg request.msg_len (rw wide large),
    )
