-- ===== src/KvStore/Set.antt =====
-- `set_request` of src/server/kvstore.c writes the message into the entry of the key.
use rdma_kv_store.Base.{
  ℕ, ◌<◌, ◌≡◌, refl, ◌∙◌, ap, inl, inr, Bool, false, List, [], ◌∷◌, ◌++◌, Option, none, some, arith,
  length, take, drop, get_or, set, set-set, Option-cases, ℤ, pos, negsuc, get_or-set_self,
  length-overwrite,
}
use rdma_kv_store.Machine.{Returns, returns, Returns-bind, Returns-mono, memcpy-some}
use rdma_kv_store.Common.{Request, Response, ok, msg_size}
use rdma_kv_store.Hash.State.{
  null, RwLock, unlocked, readers, writer, try_wrlock, rw_unlock, Store, write,
}
use rdma_kv_store.Hash.Entries.{get_key_entry}
use rdma_kv_store.Hash.Function.{bucket_of, bucket_of-lt}
use rdma_kv_store.Hash.Chain.{Cell, item_of, head_or, last_addr, lookup, lookup-has, load-head}
use rdma_kv_store.Hash.Splice.{lookup-IsSplit, Linked-right}
use rdma_kv_store.Hash.Spec.{assign, assign-split}
use rdma_kv_store.Hash.Model.{Chains, chain, Models, IsEnough}
use rdma_kv_store.Hash.Insert.{Allocates, new_cell, get_key_entry-found, get_key_entry-absent}
use rdma_kv_store.Hash.Update.{all_linked, item_at_cell, replace-Models}
use rdma_kv_store.KvStore.Handlers.{SetAllocs, key_error_response, set_locked, set_request}
use rdma_kv_store.KvStore.Get.{IsRequest}

-- The cell with the message of a SET in its value.
abbrev pub filled : Request → List ℕ → Cell → Cell
filled request buf c = record c {
  value = some (take request.msg_len request.msg ++ drop request.msg_len buf);
  value_size = request.msg_len;
}

abbrev pub ok_response : Response → Response
ok_response r = record r { code = ok }

-- The buffer that `malloc(MSG_SIZE)` gives.
pub record AllocatesValue (a : SetAllocs) : Type 0 where
  pub buf : List ℕ
  pub value_buf : a.value_buf ≡ some buf
  pub size : length buf ≡ msg_size

rw_unlock-try_wrlock : (l lock : RwLock) → try_wrlock l ≡ some lock → rw_unlock lock ≡ l
rw_unlock-try_wrlock unlocked lock e = ground arith
rw_unlock-try_wrlock (readers n) lock e = cc
rw_unlock-try_wrlock writer lock e = cc

-- A write to a cell that nobody holds.
set_locked-filled :
    (n : ℕ) (ls : List Bool) (cs : Chains) (s : Store) (b : ℕ) (before after : List Cell) (c : Cell)
    (a : SetAllocs) (request : Request) (t : List ℕ) (response : Response) (lock : RwLock)
    → Models n ls cs s
    → b < n
    → chain cs b ≡ before ++ c ∷ after
    → (v : AllocatesValue a) → IsRequest request t
    → try_wrlock c.rwlock ≡ some lock
    → Returns
        (λ r s'.
          (r ≡ (pos 0, ok_response response))
          × Models n ls (set cs b (before ++ filled request v.buf c ∷ after)) s')
        (set_locked a c.addr
          (item_of c (last_addr null before) (head_or null after))
          (some lock)
          request
          response
          s)
unfolding set_locked
set_locked-filled n ls cs s b before after c a request t response lock m inside whole v good free =
    let ok_cell =
      (Linked-right s.heap (c ∷ after) null null before
        (all_linked s m b inside before after c whole)).0 in
    let item = λ (d : Cell). some (item_of d (last_addr null before) (head_or null after)) in
    let held : Cell = record c { rwlock = lock } in
    let final : Cell = record (filled request v.buf c) { rwlock = rw_unlock lock } in
    let h1 = write s.heap c.addr (item held) in
    let same = rw_unlock-try_wrlock c.rwlock lock free in
    let fits = good.msg_fits in
    rw
      (
        v.value_buf,
        memcpy-some v.buf request.msg request.msg_len (omega (arith, good.msg_width))
            (omega (arith, v.size)),
      )
      (returns (
        refl,
        replace-Models s m b inside before after c whole (filled request v.buf c)
            (write h1 c.addr (item final))
            (record {
              ne_null = ok_cell.ne_null;
              key_text = ok_cell.key_text;
              room = (
                length-overwrite request.msg_len request.msg v.buf (rw good.msg_width fits)
                      (rw v.size fits)
                    ∙ v.size,
                fits,
              );
            })
            refl (λ a o. unfold write in ground arith) (unfold write in ground arith),
      ))

-- What a SET leaves where the entry `c` is there, by whether it can be locked.
abbrev pub SetFound :
    ℕ
    → List Bool
    → Chains
    → ℕ
    → List ℕ
    → Cell
    → Request
    → List ℕ
    → Response
    → Option RwLock
    → ℤ × Response
    → Store
    → Type 0
SetFound n ls cs b t c request buf response none r s' =
    (r ≡ (negsuc 0, key_error_response response)) × Models n ls cs s'
SetFound n ls cs b t c request buf response (some lock) r s' =
    (r ≡ (pos 0, ok_response response))
    × Models n ls (set cs b (assign t (filled request buf c) (chain cs b))) s'

module _ (n : ℕ) (ls : List Bool) (cs : Chains) (s : Store) (fuel : ℕ) (a : SetAllocs)
    (request : Request) (t : List ℕ) (response : Response) (m : Models n ls cs s)
    (good : IsRequest request t) (enough : IsEnough fuel cs)
    (idle : get_or ls (bucket_of t n) false ≡ false) (v : AllocatesValue a) where
  -- Over a well-formed table whose mutex for the key's bucket is free, with more fuel than every
  -- chain is long, with memory for a value and a message that fits, a SET of a key that has an
  -- entry overwrites its value and answers OK, or answers KEY_ERROR and leaves the table where
  -- somebody holds the entry.
  pub set_request-found :
      (c : Cell)
      → lookup t (chain cs (bucket_of t n)) ≡ some c
      → Returns
          (SetFound n ls cs (bucket_of t n) t c request v.buf response (try_wrlock c.rwlock))
          (set_request fuel a request response s)
  unfolding set_request
  set_request-found c e =
      let b = bucket_of t n in
      let inside = bucket_of-lt t n m.roomy in
      let (before, after, sp) = lookup-IsSplit t (chain cs b) c e in
      rw (ap (λ k. get_key_entry fuel a.entry request.key k s) good.key_len) (
        Returns-bind
          (get_key_entry-found s m fuel a.entry request.key t good.key_text enough idle c e)
          λ p s1 (at_c, m1, same1).
            let here = item_at_cell s1 m1 b inside before after c sp.whole in
            let real = (lookup-has t s1.heap null (chain cs b) null c (m1.linked b) e).0 in
            rw (at_c, load-head s1 real.ne_null here)
              (elim (Option-cases (try_wrlock c.rwlock)) [
                | inl held ↦ rw held (unfold set_locked in returns (refl, m1))
                | inr (lock, free) ↦
                    let kept =
                      ap (assign t (filled request v.buf c)) sp.whole
                      ∙ assign-split t before after c (filled request v.buf c) sp.missed sp.hit in
                    rw free (
                      Returns-mono
                        (set_locked-filled n ls cs s1 b before after c a request t response lock m1
                          inside sp.whole v good free)
                        λ r s2 (answer, m2). (answer, rw kept m2))
              ]))

  -- Over a well-formed table whose mutex for the key's bucket is free, with more fuel than every
  -- chain is long, with memory at hand and a message that fits, a SET of a key that has no entry
  -- answers OK and puts an entry with the message as its value in front of the bucket.
  pub set_request-absent :
      lookup t (chain cs (bucket_of t n)) ≡ none
      → Allocates a.entry s (length t)
      → Returns
          (λ r s'.
            (r ≡ (pos 0, ok_response response))
            × ((text : List ℕ) × Models n ls
                  (set cs (bucket_of t n) (
                    filled request v.buf (new_cell a.entry.entry text t)
                    ∷ chain cs (bucket_of t n)))
                  s'))
          (set_request fuel a request response s)
  unfolding set_request
  set_request-absent e al =
      let b = bucket_of t n in
      let inside = bucket_of-lt t n m.roomy in
      let xs = chain cs b in
      rw (ap (λ k. get_key_entry fuel a.entry request.key k s) good.key_len) (
        Returns-bind
          (get_key_entry-absent s m fuel a.entry request.key t good.key_text enough idle e al)
          λ p s1 (at_p, (text, m1)).
            let c = new_cell a.entry.entry text t in
            let whole : chain (set cs b (c ∷ xs)) b ≡ c ∷ xs =
              get_or-set_self cs b (c ∷ xs) [] (rw m.width inside) in
            let here = item_at_cell s1 m1 b inside [] xs c whole in
            rw (at_p, load-head s1 al.ne_null here)
              (Returns-mono
                (set_locked-filled n ls (set cs b (c ∷ xs)) s1 b [] xs c a request t response writer
                  m1 inside whole v good refl)
                λ r s2 (done_ok, m2). (done_ok, (text, rw (set-set cs b) at m2))))
