-- ===== src/Hash/Init.antt =====
-- `init_hashtable` of src/server/hash.c: its return values, and the empty table that it makes.
use rdma_kv_store.Base.{
  ℕ, ◌<◌, ◌≡◌, ◌≢◌, ◌%◌, ◌^◌, refl, true, false, arith, ◌==◌, [], List, replicate, zero, suc, inl,
  inr, Bool-cases, length-replicate, get_or-replicate, ℤ, pos, negsuc,
}
use rdma_kv_store.Machine.{use_after_free, done, fault, Returns, returns}
use rdma_kv_store.Hash.State.{TablePtr, null_table, freed_table, live, null, Heap, Store}
use rdma_kv_store.Hash.Table.{InitAllocs, free_old, make_table, init_hashtable}
use rdma_kv_store.Hash.Chain.{Cell}
use rdma_kv_store.Hash.Model.{Models}

abbrev pub fresh_store : ℕ → Heap → Store
fresh_store n h = record {
  ht = live (record { capacity = n; items = replicate n null; locks = replicate n false });
  heap = h;
}

pub fresh_store-Models :
    (n : ℕ) (h : Heap) → 0 < n → Models n (replicate n false) (replicate n []) (fresh_store n h)
fresh_store-Models n h roomy = record {
  items = replicate n null;
  ht = refl;
  roomy = roomy;
  items_width = length-replicate n null;
  locks_width = length-replicate n false;
  width = length-replicate n [];
  heads = λ i. rw (get_or-replicate n i null, get_or-replicate {A = List Cell} n i []);
  linked = λ i. rw (get_or-replicate {A = List Cell} n i []) tt;
  apart = λ i j a ne.
      rw (get_or-replicate {A = List Cell} n i [], get_or-replicate {A = List Cell} n j [])
        (ground arith);
}

-- The first allocation that fails, counted from 0.
abbrev pub FirstFailure : InitAllocs → ℕ → Type 0
FirstFailure a zero = a.table_ok ≡ false
FirstFailure a (suc zero) = (a.table_ok ≡ true) × (a.items_ok ≡ false)
FirstFailure a (suc (suc zero)) = (a.table_ok ≡ true) × (a.items_ok ≡ true) × (a.locks_ok ≡ false)
FirstFailure a (suc (suc (suc r))) = ⊥

-- The state in which `init_hashtable` leaves the store, by what it returns.
abbrev pub InitResult : ℕ → InitAllocs → Store → ℤ → Store → Type 0
InitResult n a s (pos r) s' =
    (r ≡ 0)
    × (a.table_ok ≡ true)
    × (a.items_ok ≡ true)
    × (a.locks_ok ≡ true)
    × Models n (replicate n false) (replicate n []) s'
    × (s'.heap ≡ s.heap)
InitResult n a s (negsuc zero) s' = (s'.ht ≡ null_table) × FirstFailure a 0 × (s'.heap ≡ s.heap)
InitResult n a s (negsuc (suc r)) s' =
    (s'.ht ≡ freed_table)
    × FirstFailure a (suc r)
    × (s'.heap ≡ s.heap)
    × ((k : ℕ) (a' : InitAllocs) → init_hashtable k a' s' ≡ fault use_after_free)

make_table-InitResult :
    (n : ℕ) (a : InitAllocs) (s : Store)
    → 0 < n
    → n < 2 ^ 32
    → Returns (InitResult n a s) (make_table n a s)
unfolding init_hashtable make_table free_old
make_table-InitResult n a s roomy narrow =
    let kept : n % 2 ^ 32 ≡ n = omega (arith, narrow) in
    let some_room : (n == 0) ≡ false = ground arith in
    elim (Bool-cases a.table_ok) [
      | inr t ↦ rw (t, some_room) (returns (refl, refl, refl))
      | inl t ↦ elim (Bool-cases a.items_ok) [
        | inr i ↦ rw (t, i, some_room) (returns (refl, (refl, refl), refl, λ k a'. refl))
        | inl i ↦ elim (Bool-cases a.locks_ok) [
          | inr l ↦ rw (t, i, l, some_room) (returns (refl, (refl, refl, refl), refl, λ k a'. refl))
          | inl l ↦
              rw (t, i, l, kept)
                (returns (refl, refl, refl, refl, fresh_store-Models n s.heap roomy, refl))
        ]
      ]
    ]

-- With a capacity from 1 to 2^32 - 1, and ht that does not lead to freed memory, init_hashtable
-- returns 0 only where its three allocations succeed, with an empty table, every mutex free and
-- the heap as it was; else -1, -2 or -3 names the first allocation that failed. After -1 ht is
-- NULL. After -2 and -3 it still leads to the table that was freed, and every later call of
-- init_hashtable uses freed memory.
pub init_hashtable-InitResult :
    (n : ℕ) (a : InitAllocs) (s : Store)
    → 0 < n
    → n < 2 ^ 32
    → s.ht ≢ freed_table
    → Returns (InitResult n a s) (init_hashtable n a s)
unfolding init_hashtable free_old
init_hashtable-InitResult n a s roomy narrow usable =
    let freed : free_old s.ht s ≡ done tt s = goes_on s.ht usable in
    rw freed (make_table-InitResult n a s roomy narrow)
  where
    goes_on : (p : TablePtr) → p ≢ freed_table → free_old p s ≡ done tt s
    goes_on null_table h = refl
    goes_on freed_table h = absurd (h refl)
    goes_on (live t) h = refl
