-- ===== src/Hash/Remove.antt =====
-- `remove_item` of src/server/hash.c: what it answers, and what is left of the bucket.
use rdma_kv_store.Base.{
  ℕ, ◌<◌, ◌≡◌, refl, ◌∙◌, ap, inl, inr, Bool, true, false, List, [], ◌∷◌, ◌++◌, none, some, arith,
  ◌==◌, if◌then◌else◌, length, get_or, set, get_or-set, length-set, set-get_or, ℤ, pos,
  Option-cases,
}
use rdma_kv_store.Machine.{Returns, returns, Returns-bind}
use rdma_kv_store.Common.CString.{cstr}
use rdma_kv_store.Hash.State.{
  live, Ptr, null, RwLock, try_wrlock, rw_unlock, HashItem, Heap, Store, write,
}
use rdma_kv_store.Hash.Entries.{unlink_item, remove_found, remove_item}
use rdma_kv_store.Hash.Function.{bucket_of, bucket_of-lt}
use rdma_kv_store.Hash.Chain.{
  Cell, item_of, head_or, last_addr, has, Linked, Linked-frame, load-head, lookup, lookup-has,
  addr_of,
}
use rdma_kv_store.Hash.Splice.{
  has-append, Linked-left, Linked-right, Linked-apart, Linked-join, lookup-IsSplit,
}
use rdma_kv_store.Hash.Model.{
  Chains, chain, Models, IsEnough, Models-set, get_bucket-Models, search_key-Models,
  mutex_lock-Models, mutex_unlock-Models,
}
use rdma_kv_store.Hash.Spec.{
  erase, assign, remove_spec, remove_spec-none, remove_spec-erase, remove_spec-held, erase-split,
  assign-split,
}
use rdma_kv_store.Hash.Update.{all_linked, item_at_cell, outside, replace-Models}
use rdma_kv_store.Hash.Relink.{relink_next-Linked, relink_prev-Linked, relink_head-done}

-- The head pointers after `relink_head`.
new_heads :
    (items : List Ptr) (b : ℕ) (before after : List Cell) (c : Cell) (i : ℕ)
    → b < length items
    → get_or items b null ≡ head_or null (before ++ c ∷ after)
    → has c.addr before ≡ false
    → get_or
        (if get_or items b null == c.addr then set items b (head_or null after) else items)
        i
        null
      ≡ (if b == i then head_or null (before ++ after) else get_or items i null)
new_heads items b [] after c i h e out =
    let hit : (get_or items b null == c.addr) ≡ true = ground arith in
    rw hit (get_or-set items b i (head_or null after) null h)
new_heads items b (x ∷ before) after c i h e out =
    let miss : (get_or items b null == c.addr) ≡ false = ground arith in rw miss (ground arith)

module _ {n : ℕ} (ls : List Bool) {cs : Chains} (s : Store) (b : ℕ) (inside : b < n)
    (before after : List Cell) (c : Cell) (whole : chain cs b ≡ before ++ c ∷ after)
    (m : Models n (set ls b true) cs s) (idle : get_or ls b false ≡ false) where
  l : Linked s.heap null (before ++ c ∷ after) null
  l = all_linked s m b inside before after c whole

  right : Linked s.heap (last_addr null before) (c ∷ after) null
  right = Linked-right s.heap (c ∷ after) null null before l

  apart : (a : ℕ) → has a before ≡ true → has a (c ∷ after) ≡ false
  apart a = Linked-apart s.heap (c ∷ after) null null before a l

  -- Once both neighbours are relinked and the head has moved on, the item can go.
  unlinked-Models :
      (g : Heap)
      → Linked g null before (head_or null after)
      → Linked g (last_addr null before) after null
      → ((a : ℕ) → has a (chain cs b) ≡ false → g a ≡ s.heap a)
      → Models n (set ls b true) (set cs b (before ++ after)) (record {
        ht = live (record {
          capacity = n;
          items =
              if get_or m.items b null == c.addr
              then set m.items b (head_or null after)
              else m.items;
          locks = set ls b true;
        });
        heap = write g c.addr none;
      })
  unlinked-Models g front back same =
      let p = c.addr in
      let g' = write g p none in
      let out : has p before ≡ false = ground (arith, apart p) in
      let within : b < length m.items = omega (arith, m.items_width) in
      Models-set s m b (before ++ after)
        (if get_or m.items b null == p then set m.items b (head_or null after) else m.items) g'
        inside (ground (arith, length-set m.items b (head_or null after), m.items_width))
        (λ i. new_heads m.items b before after c i within (m.heads b ∙ ap (head_or null) whole) out)
        (Linked-join g' after null null before
          (Linked-frame g g' null before (head_or null after) front
            λ a i. unfold write in ground arith)
          (Linked-frame g g' (last_addr null before) after null back
            λ a i. unfold write in ground (arith, right.2))
          λ a i. ground (arith, apart a))
        (λ a o used.
          unfold write in ground (arith, same a, outside s m b inside before after c whole a))
        (λ a i o.
          ground (arith, outside s m b inside before after c whole a, has-append a before after))

  unlink_item-Models :
      (lock : RwLock)
      → Returns
          (λ r s'. (r ≡ pos 0) × Models n ls (set cs b (before ++ after)) s')
          (unlink_item b c.addr (item_of c (last_addr null before) (head_or null after)) lock s)
  unfolding unlink_item
  unlink_item-Models lock =
      let p = c.addr in
      let cleared : HashItem = record (item_of c (last_addr null before) (head_or null after)) {
        value = none;
        value_size = 0;
        key = none;
        rwlock = lock;
      } in
      let s1 : Store = record s { heap = write s.heap p (some cleared) } in
      let e1 : s1.heap p ≡ some cleared = (unfold write in ground arith) in
      Returns-bind
        (relink_next-Linked s1 p cleared right.0.ne_null e1 after refl
          (Linked-frame s.heap s1.heap p after null right.3
            λ a i. unfold write in ground (arith, right.2))
          right.2)
        λ _ s2 (t2, l2, e2, o2).
          Returns-bind
            (relink_prev-Linked s2 p cleared right.0.ne_null e2 before refl
              (Linked-frame s.heap s2.heap null before p
                (Linked-left s.heap (c ∷ after) null null before l)
                λ a i. unfold write in ground (arith, o2 a, apart a))
              (ground (arith, apart p)))
            λ _ s3 (t3, l3, e3, o3).
              rw
                (relink_head-done s3 n m.items (set ls b true) b p cleared right.0.ne_null e3
                  (t3 ∙ t2 ∙ m.ht) (omega (arith, m.items_width)))
                (Returns-bind
                  (mutex_unlock-Models n ls _ _ b inside idle (
                    unlinked-Models s3.heap l3
                      (Linked-frame s2.heap s3.heap (last_addr null before) after null l2
                        λ a i. o3 a (ground (arith, apart a)))
                      λ a o.
                        unfold write in
                        ground (arith, o3 a, o2 a, outside s m b inside before after c whole a)))
                  λ _ s5 (m5, same5). returns (refl, m5))

-- The answer is `r`, and bucket `b` holds `xs`.
abbrev pub Leaves : ℕ → List Bool → Chains → ℕ → ℤ × List Cell → ℤ → Store → Type 0
Leaves n ls cs b (r, xs) r' s' = (r' ≡ r) × Models n ls (set cs b xs) s'

module _ {n : ℕ} (ls : List Bool) {cs : Chains} (t : List ℕ) (b : ℕ) (s : Store) (inside : b < n)
    (m : Models n (set ls b true) cs s) (idle : get_or ls b false ≡ false) where
  remove_found-none :
      lookup t (chain cs b) ≡ none
      → Returns (Leaves n ls cs b (remove_spec t (chain cs b))) (remove_found b null s)
  unfolding remove_found
  remove_found-none e = rw (remove_spec-none t (chain cs b) e) (
      Returns-bind (mutex_unlock-Models n ls cs s b inside idle m)
        λ _ s2 (m2, same). returns (refl, rw (set-get_or cs b []) m2))

  remove_found-some :
      (c : Cell)
      → lookup t (chain cs b) ≡ some c
      → Returns (Leaves n ls cs b (remove_spec t (chain cs b))) (remove_found b c.addr s)
  unfolding remove_found
  remove_found-some c e =
      let (before, after, sp) = lookup-IsSplit t (chain cs b) c e in
      let here = item_at_cell s m b inside before after c sp.whole in
      let ok = (lookup-has t s.heap null (chain cs b) null c (m.linked b) e).0 in
      let skip : (c.addr == null) ≡ false = ground (arith, ok.ne_null) in
      elim (Option-cases (try_wrlock c.rwlock)) [
        | inr (lock, free) ↦
            let gone = ap (erase t) sp.whole ∙ erase-split t before after c sp.missed sp.hit in
            rw
              (
                remove_spec-erase t (chain cs b) c lock e free,
                gone,
                skip,
                load-head s ok.ne_null here,
                free,
              )
              (unlink_item-Models ls s b inside before after c sp.whole m idle lock)
        | inl held ↦
            let c' : Cell = record c { rwlock = rw_unlock c.rwlock } in
            let g =
              write s.heap c.addr
                (some (item_of c' (last_addr null before) (head_or null after))) in
            let kept =
              ap (assign t c') sp.whole ∙ assign-split t before after c c' sp.missed sp.hit in
            rw
              (
                remove_spec-held t (chain cs b) c e held,
                kept,
                skip,
                load-head s ok.ne_null here,
                held,
              )
              (Returns-bind
                (mutex_unlock-Models n ls _ _ b inside idle (
                  replace-Models s m b inside before after c sp.whole c' g
                    (record { ne_null = ok.ne_null; key_text = ok.key_text; room = ok.room }) refl
                    (λ a o. unfold write in ground arith) (unfold write in ground arith)))
                λ _ s2 (m2, same). returns (refl, m2))
      ]

  remove_found-Leaves :
      Returns
        (Leaves n ls cs b (remove_spec t (chain cs b)))
        (remove_found b (addr_of (lookup t (chain cs b))) s)
  remove_found-Leaves = elim (Option-cases (lookup t (chain cs b))) [
    | inl e ↦ rw e (remove_found-none e)
    | inr (c, e) ↦ rw e (remove_found-some c e)
  ]

-- Over a well-formed table whose mutex for the key's bucket is free, with more fuel than every
-- chain is long, remove_item of a key of length key_len ends without a fault, answers as the
-- specification on chains says, and leaves the doubly linked chain that it gives; all other
-- buckets and the mutexes are as before.
pub remove_item-Leaves :
    (n : ℕ) (ls : List Bool) (cs : Chains) (s : Store) (fuel : ℕ) (key t : List ℕ)
    → Models n ls cs s
    → cstr key ≡ some t
    → IsEnough fuel cs
    → get_or ls (bucket_of t n) false ≡ false
    → Returns
        (Leaves n ls cs (bucket_of t n) (remove_spec t (chain cs (bucket_of t n))))
        (remove_item fuel key (length t) s)
unfolding remove_item
remove_item-Leaves n ls cs s fuel key t m is_text enough idle =
    let b = bucket_of t n in
    let inside = bucket_of-lt t n m.roomy in
    rw (get_bucket-Models s m key t is_text) (
      Returns-bind (mutex_lock-Models s m b inside idle) λ _ s1 (m1, same1).
        rw (search_key-Models s1 m1 fuel key t enough is_text)
          (remove_found-Leaves ls t b s1 inside m1 idle))
