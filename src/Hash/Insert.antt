-- ===== src/Hash/Insert.antt =====
-- `get_key_entry` of src/server/hash.c: the found entry, or a new one in front of its bucket.
use rdma_kv_store.Base.{
  ℕ, suc, ◌<◌, ◌≡◌, refl, ◌≢◌, ◌∙◌, inl, inr, Bool, false, List, [], ◌∷◌, none, some, arith, ◌==◌,
  length, get_or, set, get_or-set, get_elem?-get_or, length-set, Bool-cases,
}
use rdma_kv_store.Machine.{done, Returns, returns, Returns-bind}
use rdma_kv_store.Common.CString.{cstr}
use rdma_kv_store.Hash.State.{live, Ptr, null, unlocked, Heap, Store, write, load, set_item}
use rdma_kv_store.Hash.Entries.{EntryAllocs, zero_item, link_front, insert_entry, get_key_entry}
use rdma_kv_store.Hash.KeyCopy.{copy_key-text}
use rdma_kv_store.Hash.Function.{bucket_of, bucket_of-lt}
use rdma_kv_store.Hash.Chain.{
  Cell, item_of, IsCell, head_or, has, Linked, Linked-frame, Linked-holds, SameOutside, load-head,
  lookup, lookup-has,
}
use rdma_kv_store.Hash.Model.{
  Chains, chain, Models, IsEnough, Models-set, get_bucket-Models, item_at-Models, search_key-Models,
  mutex_lock-Models, mutex_unlock-Models,
}

not-mem_of_none :
    (h : Heap) (prev : Ptr) (xs : List Cell) (a : Ptr)
    → Linked h prev xs null
    → h a ≡ none
    → has a xs ≡ false
not-mem_of_none h prev xs a l unused = elim (Bool-cases (has a xs)) [
  | inl i ↦ absurd ((Linked-holds h prev xs null a l i).0 unused)
  | inr o ↦ o
]

-- The new cell in front of a chain.
link_front-Linked :
    (s : Store) (c : Cell) (xs : List Cell)
    → IsCell c
    → s.heap c.addr ≡ some (item_of c null null)
    → has c.addr xs ≡ false
    → Linked s.heap null xs null
    → Returns
        (λ _ s'.
          (s'.ht ≡ s.ht) × Linked s'.heap null (c ∷ xs) null × SameOutside (c ∷ xs) s.heap s'.heap)
        (link_front c.addr (head_or null xs) s)
unfolding link_front write
link_front-Linked s c [] ok e out l = returns (refl, (ok, e, refl, tt), λ a o. refl)
link_front-Linked s c (d ∷ xs) ok e out l =
    let skip : (d.addr == null) ≡ false = ground (arith, l.0.ne_null) in
    let here : (c.addr == d.addr) ≡ false = ground arith in
    let s1 : Store = record s {
      heap = write s.heap d.addr (some (item_of d c.addr (head_or null xs)));
    } in
    rw
      (
        skip,
        load-head s l.0.ne_null l.1,
        load-head {item = item_of c null null} s1 ok.ne_null (rw here e),
      )
      (returns (
        refl,
        (
          ok,
          ground arith,
          out,
          (l.0, ground arith, l.2, Linked-frame s.heap _ d.addr xs null l.3 λ a i. ground arith),
        ),
        λ a o. ground arith,
      ))

pub set_item-done :
    (s : Store) (n : ℕ) (items : List Ptr) (ls : List Bool) (b : ℕ) (p : Ptr)
    → s.ht ≡ live (record { capacity = n; items = items; locks = ls })
    → b < length items
    → set_item b p s
      ≡ done tt (record {
        ht = live (record { capacity = n; items = set items b p; locks = ls });
        heap = s.heap;
      })
unfolding set_item
set_item-done s n items ls b p e h = rw (e, get_elem?-get_or items b null h)

-- The cell that `get_key_entry` makes.
abbrev pub new_cell : Ptr → List ℕ → List ℕ → Cell
new_cell p buffer t = record {
  addr = p;
  buffer = buffer;
  text = t;
  value = none;
  value_size = 0;
  rwlock = unlocked;
}

-- `calloc` and `malloc` succeed: an unused address, and a buffer for the key and its NUL.
pub record Allocates (a : EntryAllocs) (s : Store) (len : ℕ) : Type 0 where
  pub ne_null : a.entry ≢ null
  pub unused : s.heap a.entry ≡ none
  pub buf : List ℕ
  pub key_buf : a.key_buf ≡ some buf
  pub size : length buf ≡ suc len

module _ {n : ℕ} {ls : List Bool} {cs : Chains} (s : Store) (m : Models n ls cs s) where
  insert_entry-Models :
      (a : EntryAllocs) (b : ℕ) (key t : List ℕ)
      → b < n
      → cstr key ≡ some t
      → Allocates a s (length t)
      → Returns
          (λ _ s'.
            (text : List ℕ) × Models n ls (set cs b (new_cell a.entry text t ∷ chain cs b)) s')
          (insert_entry a b (head_or null (chain cs b)) key (length t) s)
  unfolding insert_entry
  insert_entry-Models a b key t h e al =
      let p = a.entry in
      let s1 : Store = record s { heap = write s.heap p (some zero_item) } in
      let (text, copied, is_text) = copy_key-text s1 key t al.buf e al.size in
      let c = new_cell p text t in
      let s2 : Store = record s { heap = write s1.heap p (some (item_of c null null)) } in
      let inside : b < length m.items = omega (arith, m.items_width) in
      let out : has p (chain cs b) ≡ false =
        not-mem_of_none s.heap null (chain cs b) p (m.linked b) al.unused in
      let loaded : load p s1 ≡ done zero_item s1 =
        load-head s1 al.ne_null (unfold write in ground arith) in
      let kept : Linked s2.heap null (chain cs b) null =
        Linked-frame s.heap s2.heap null (chain cs b) null (m.linked b)
          λ q i. unfold write in ground arith in
      let front : s2.heap p ≡ some (item_of c null null) = (unfold write in ground arith) in
      rw (loaded, al.key_buf, copied)
        (Returns-bind
          (link_front-Linked s2 c (chain cs b)
            (record { ne_null = al.ne_null; key_text = is_text; room = refl }) front out kept)
          λ _ s3 (same, l, rest). rw (set_item-done s3 n m.items ls b p (same ∙ m.ht) inside) (
            returns (
              text,
              Models-set s m b (c ∷ chain cs b) (set m.items b p) s3.heap h
                  (length-set m.items b p ∙ m.items_width)
                  (λ i. get_or-set m.items b i p null inside) l
                  (λ q o used. unfold write in ground (arith, rest q, al.unused))
                  (λ q i o. ground (arith, al.unused)),
            )))

module _ {n : ℕ} {ls : List Bool} {cs : Chains} (s : Store) (m : Models n ls cs s) where
  module _ (fuel : ℕ) (a : EntryAllocs) (key t : List ℕ) (is_text : cstr key ≡ some t)
      (enough : IsEnough fuel cs) (idle : get_or ls (bucket_of t n) false ≡ false) where
    -- Over a well-formed table whose mutex for the key's bucket is free, with more fuel than every
    -- chain is long, get_key_entry returns the first entry that matches, and neither the heap nor
    -- the table changes.
    pub get_key_entry-found :
        (c : Cell)
        → lookup t (chain cs (bucket_of t n)) ≡ some c
        → Returns
            (λ p s'. (p ≡ c.addr) × Models n ls cs s' × (s'.heap ≡ s.heap))
            (get_key_entry fuel a key (length t) s)
    unfolding get_key_entry
    get_key_entry-found c found =
        let b = bucket_of t n in
        let inside = bucket_of-lt t n m.roomy in
        let (ok, i) = lookup-has t s.heap null (chain cs b) null c (m.linked b) found in
        let real : (c.addr == null) ≡ false = ground (arith, ok.ne_null) in
        rw (get_bucket-Models s m key t is_text) (
          Returns-bind (mutex_lock-Models s m b inside idle) λ _ s1 (m1, same1).
            rw
              (
                item_at-Models s1 m1 b inside,
                search_key-Models s1 m1 fuel key t enough is_text,
                found,
                real,
              )
              (Returns-bind (mutex_unlock-Models n ls cs s1 b inside idle m1)
                λ _ s2 (m2, same2). returns (refl, m2, same2 ∙ same1)))

    -- Over a well-formed table whose mutex for the key's bucket is free, with more fuel than every
    -- chain is long, where no entry matches and memory is at hand, get_key_entry returns a new
    -- entry, empty and under the key, that stands in front of the bucket of a table that is well
    -- formed again.
    pub get_key_entry-absent :
        lookup t (chain cs (bucket_of t n)) ≡ none
        → Allocates a s (length t)
        → Returns
            (λ p s'.
              (p ≡ a.entry)
              × ((text : List ℕ) × Models n ls
                    (set cs (bucket_of t n) (new_cell a.entry text t ∷ chain cs (bucket_of t n)))
                    s'))
            (get_key_entry fuel a key (length t) s)
    unfolding get_key_entry
    get_key_entry-absent absent al =
        let b = bucket_of t n in
        let inside = bucket_of-lt t n m.roomy in
        rw (get_bucket-Models s m key t is_text) (
          Returns-bind (mutex_lock-Models s m b inside idle) λ _ s1 (m1, same1).
            rw
              (
                item_at-Models s1 m1 b inside,
                search_key-Models s1 m1 fuel key t enough is_text,
                absent,
              )
              (Returns-bind
                (insert_entry-Models s1 m1 a b key t inside is_text (record {
                  ne_null = al.ne_null;
                  unused = rw same1 al.unused;
                  buf = al.buf;
                  key_buf = al.key_buf;
                  size = al.size;
                }))
                λ _ s2 (text, m2).
                  Returns-bind (mutex_unlock-Models n ls _ s2 b inside idle m2)
                    λ _ s3 (m3, same3). returns (refl, (text, m3))))
