-- ===== src/Hash/Model.antt =====
-- What a store means: a list of chains of cells, one for each bucket.
use rdma_kv_store.Base.{
  ℕ, ◌<◌, ◌≡◌, refl, ◌≢◌, ◌∙◌, inl, inr, Bool, true, false, List, [], none, some, arith, ◌==◌,
  if◌then◌else◌, length, get_or, set, get_or-set, get_elem?-get_or, length-set, set-set_back, sym,
  Bool-cases,
}
use rdma_kv_store.Machine.{done, blocked, Returns, returns}
use rdma_kv_store.Common.CString.{cstr}
use rdma_kv_store.Hash.State.{live, Ptr, null, Heap, Store, item_at, mutex_lock, mutex_unlock}
use rdma_kv_store.Hash.Table.{get_bucket, search_key}
use rdma_kv_store.Hash.Function.{bucket_of, bucket_of-lt, get_bucket-done}
use rdma_kv_store.Hash.Chain.{
  Cell, head_or, has, Linked, Linked-frame, Linked-holds, lookup, addr_of, search_loop-lookup,
}

abbrev pub Chains : Type 0
Chains = List (List Cell)

abbrev pub chain : Chains → ℕ → List Cell
chain cs i = get_or cs i []

-- `s` holds a table of `n` buckets, with mutexes `ls`, whose chains are `cs`.
pub record Models (n : ℕ) (ls : List Bool) (cs : Chains) (s : Store) : Type 0 where
  pub items : List Ptr
  pub ht : s.ht ≡ live (record { capacity = n; items = items; locks = ls })
  pub roomy : 0 < n
  pub items_width : length items ≡ n
  pub locks_width : length ls ≡ n
  pub width : length cs ≡ n
  pub heads : (i : ℕ) → get_or items i null ≡ head_or null (chain cs i)
  pub linked : (i : ℕ) → Linked s.heap null (chain cs i) null
  pub apart : (i j a : ℕ) → i ≢ j → has a (chain cs i) ≡ true → has a (chain cs j) ≡ false

-- The fuel exceeds the length of every chain.
abbrev pub IsEnough : ℕ → Chains → Type 0
IsEnough fuel cs = (i : ℕ) → length (chain cs i) < fuel

-- The mutex that was taken is given back.
pub mutex_unlock-Models :
    (n : ℕ) (ls : List Bool) (cs : Chains) (s : Store) (b : ℕ)
    → b < n
    → get_or ls b false ≡ false
    → Models n (set ls b true) cs s
    → Returns (λ _ s'. Models n ls cs s' × (s'.heap ≡ s.heap)) (mutex_unlock b s)
unfolding mutex_unlock
mutex_unlock-Models n ls cs s b h idle m =
    let wide : length ls ≡ n = sym (length-set ls b true) ∙ m.locks_width in
    let back : set (set ls b true) b false ≡ ls =
      (rw (← idle) (set-set_back ls b true false (omega arith))) in
    rw (m.ht, get_elem?-get_or (set ls b true) b false (omega (arith, m.locks_width)), back)
      (returns (
        record {
          items = m.items;
          ht = refl;
          roomy = m.roomy;
          items_width = m.items_width;
          locks_width = wide;
          width = m.width;
          heads = m.heads;
          linked = m.linked;
          apart = m.apart;
        },
        refl,
      ))

module _ {n : ℕ} {ls : List Bool} {cs : Chains} (s : Store) (m : Models n ls cs s) where
  pub get_bucket-Models :
      (key t : List ℕ) → cstr key ≡ some t → get_bucket key s ≡ done (bucket_of t n) s
  get_bucket-Models key t e = get_bucket-done key t s _ e m.ht m.roomy

  pub item_at-Models : (b : ℕ) → b < n → item_at b s ≡ done (head_or null (chain cs b)) s
  unfolding item_at
  item_at-Models b h =
      rw (m.ht, get_elem?-get_or m.items b null (omega (arith, m.items_width)), m.heads b)

  -- Over a well-formed table, with more fuel than every chain is long, search of a key of length
  -- key_len returns the address of the first entry of the key's bucket whose key starts with it,
  -- or NULL, and changes nothing.
  pub search_key-Models :
      (fuel : ℕ) (key t : List ℕ)
      → IsEnough fuel cs
      → cstr key ≡ some t
      → search_key fuel key (length t) s ≡ done (addr_of (lookup t (chain cs (bucket_of t n)))) s
  unfolding search_key
  search_key-Models fuel key t f e =
      let b = bucket_of t n in
      rw (get_bucket-Models key t e, item_at-Models b (bucket_of-lt t n m.roomy))
        (search_loop-lookup fuel s key t null (chain cs b) (m.linked b) e (f b))

  pub mutex_lock-Models :
      (b : ℕ)
      → b < n
      → get_or ls b false ≡ false
      → Returns (λ _ s'. Models n (set ls b true) cs s' × (s'.heap ≡ s.heap)) (mutex_lock b s)
  unfolding mutex_lock
  mutex_lock-Models b h idle =
      rw (m.ht, get_elem?-get_or ls b false (omega (arith, m.locks_width)), idle)
        (returns (
          record {
            items = m.items;
            ht = refl;
            roomy = m.roomy;
            items_width = m.items_width;
            locks_width = length-set ls b true ∙ m.locks_width;
            width = m.width;
            heads = m.heads;
            linked = m.linked;
            apart = m.apart;
          },
          refl,
        ))

  -- A mutex that is held stops the caller.
  pub mutex_lock-blocked : (b : ℕ) → b < n → get_or ls b false ≡ true → mutex_lock b s ≡ blocked
  unfolding mutex_lock
  mutex_lock-blocked b h held =
      rw (m.ht, get_elem?-get_or ls b false (omega (arith, m.locks_width)), held)

  -- A change of one bucket: its new chain hangs together, its new head stands in the table, and
  -- nothing else on the heap has changed but addresses that were free.
  pub Models-set :
      (b : ℕ) (xs : List Cell) (items' : List Ptr) (g : Heap)
      → b < n
      → length items' ≡ n
      → ((i : ℕ)
          → get_or items' i null ≡ (if b == i then head_or null xs else get_or m.items i null))
      → Linked g null xs null
      → ((a : Ptr) → has a (chain cs b) ≡ false → s.heap a ≢ none → g a ≡ s.heap a)
      → ((a : Ptr) → has a xs ≡ true → has a (chain cs b) ≡ false → s.heap a ≡ none)
      → Models n ls
          (set cs b xs)
          (record { ht = live (record { capacity = n; items = items'; locks = ls }); heap = g })
  Models-set b xs items' g h wide new l same fresh = record {
    items = items';
    ht = refl;
    roomy = m.roomy;
    items_width = wide;
    locks_width = m.locks_width;
    width = length-set cs b xs ∙ m.width;
    heads = λ i. rw (new i, get_or-set cs b i xs [] inside) (ground (arith, m.heads i));
    linked = λ i. rw (get_or-set cs b i xs [] inside) (linked i);
    apart = λ i j a ne.
        rw (get_or-set cs b i xs [] inside, get_or-set cs b j xs [] inside) (apart i j a ne);
  }
    where
      inside : b < length cs
      inside = omega (arith, m.width)

      other : (i a : ℕ) → b ≢ i → has a (chain cs i) ≡ true → has a (chain cs b) ≡ false
      other i a ne in_i = ground (arith, m.apart i b a)

      linked : (i : ℕ) → Linked g null (if b == i then xs else chain cs i) null
      linked i = elim (Bool-cases (b == i)) [
        | inl e ↦ rw e l
        | inr e ↦ rw e (
            Linked-frame s.heap g null (chain cs i) null (m.linked i) λ a in_i.
              same a (other i a (ground arith) in_i)
                (Linked-holds s.heap null (chain cs i) null a (m.linked i) in_i).0)
      ]

      unshared : (i a : ℕ) → b ≢ i → has a (chain cs i) ≡ true → has a xs ≡ false
      unshared i a ne in_i = elim (Bool-cases (has a xs)) [
        | inr out ↦ out
        | inl in_xs ↦ absurd (
            (Linked-holds s.heap null (chain cs i) null a (m.linked i) in_i).0
              (fresh a in_xs (other i a ne in_i)))
      ]

      apart :
          (i j a : ℕ)
          → i ≢ j
          → has a (if b == i then xs else chain cs i) ≡ true
          → has a (if b == j then xs else chain cs j) ≡ false
      apart i j a ne in_i = ground (arith, m.apart i j a ne, unshared i a, unshared j a)
