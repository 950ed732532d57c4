-- ===== src/Hash/Relink.antt =====
-- The three pointer updates of `remove_item`.
use rdma_kv_store.Base.{
  ℕ, ◌<◌, ◌≡◌, refl, ◌≢◌, ◌∙◌, ap, inl, inr, ◌⊎◌, Bool, true, false, List, [], ◌∷◌, ◌++◌, some,
  arith, ◌==◌, if◌then◌else◌, length, get_or, set, get_elem?-get_or, Bool-cases,
}
use rdma_kv_store.Machine.{done, Returns, returns}
use rdma_kv_store.Hash.State.{live, Ptr, null, HashItem, Store, write, item_at}
use rdma_kv_store.Hash.Entries.{relink_next, relink_prev, relink_head}
use rdma_kv_store.Hash.Chain.{
  Cell, item_of, head_or, last_addr, has, Linked, Linked-frame, SameOutside, load-head,
}
use rdma_kv_store.Hash.Splice.{has-append, Linked-right, Linked-set_last}
use rdma_kv_store.Hash.Insert.{set_item-done}

snoc-cases : (xs : List Cell) → (xs ≡ []) ⊎ ((ys : List Cell) × (y : Cell) × (xs ≡ ys ++ y ∷ []))
snoc-cases [] = inl refl
snoc-cases (x ∷ xs) = elim (snoc-cases xs) [
  | inl e ↦ inr ([], x, ap (λ t. x ∷ t) e)
  | inr (ys, y, e) ↦ inr (x ∷ ys, y, ap (λ t. x ∷ t) e)
]

last_addr-snoc : (prev : Ptr) (ys : List Cell) (y : Cell) → last_addr prev (ys ++ y ∷ []) ≡ y.addr
last_addr-snoc prev [] y = refl
last_addr-snoc prev (x ∷ ys) y = last_addr-snoc x.addr ys y

module _ (s : Store) (p : Ptr) (item : HashItem) (ne : p ≢ null) (e : s.heap p ≡ some item) where
  -- The chain behind the item gets the item's predecessor.
  pub relink_next-Linked :
      (after : List Cell)
      → item.next ≡ head_or null after
      → Linked s.heap p after null
      → has p after ≡ false
      → Returns
          (λ _ s'.
            (s'.ht ≡ s.ht)
            × Linked s'.heap item.prev after null
            × (s'.heap p ≡ some item)
            × SameOutside after s.heap s'.heap)
          (relink_next p s)
  unfolding relink_next write
  relink_next-Linked [] en l out =
      let is_end : (item.next == null) ≡ true = ground arith in
      rw (load-head s ne e, is_end) (returns (refl, tt, e, λ a o. refl))
  relink_next-Linked (d ∷ xs) en l out =
      let skip : (item.next == null) ≡ false = ground (arith, l.0.ne_null) in
      let loaded =
        load-head {p = item.next} {item = item_of d p (head_or null xs)} s (rw en l.0.ne_null)
          (rw en l.1) in
      rw (load-head s ne e, skip, loaded)
        (returns (
          refl,
          (l.0, ground arith, l.2, Linked-frame s.heap _ d.addr xs null l.3 λ a i. ground arith),
          ground arith,
          λ a o. ground arith,
        ))

  -- The chain before the item leads to the item's successor.
  pub relink_prev-Linked :
      (before : List Cell)
      → item.prev ≡ last_addr null before
      → Linked s.heap null before p
      → has p before ≡ false
      → Returns
          (λ _ s'.
            (s'.ht ≡ s.ht)
            × Linked s'.heap null before item.next
            × (s'.heap p ≡ some item)
            × SameOutside before s.heap s'.heap)
          (relink_prev p s)
  unfolding relink_prev write
  relink_prev-Linked before ep l out = elim (snoc-cases before) [
    | inl e0 ↦
        let is_end : (item.prev == null) ≡ true =
          (let q = ap (last_addr null) e0 in ground arith) in
        rw e0 (rw (load-head s ne e, is_end) (returns (refl, tt, e, λ a o. refl)))
    | inr (ys, y, es) ↦
        let ly : Linked s.heap null (ys ++ y ∷ []) p = rw es at l in
        let here = Linked-right s.heap (y ∷ []) p null ys ly in
        let prev : item.prev ≡ y.addr = ep ∙ ap (last_addr null) es ∙ last_addr-snoc null ys y in
        let skip : (item.prev == null) ≡ false = ground (arith, here.0.ne_null) in
        let loaded =
          load-head {p = item.prev} {item = item_of y (last_addr null ys) p} s
            (rw prev here.0.ne_null) (rw prev here.1) in
        rw es (
          rw (load-head s ne e, skip, loaded)
            (returns (
              refl,
              Linked-set_last s.heap _ null ys p item.next y ly (λ a o. ground arith)
                  (ground arith),
              ground (arith, has-append p ys (y ∷ []), ap (has p) es),
              λ a o. ground (arith, has-append a ys (y ∷ [])),
            )))
  ]

-- The bucket's head moves on where the item was the head.
pub relink_head-done :
    (s : Store) (n : ℕ) (items : List Ptr) (ls : List Bool) (b : ℕ) (p : Ptr) (item : HashItem)
    → p ≢ null
    → s.heap p ≡ some item
    → s.ht ≡ live (record { capacity = n; items = items; locks = ls })
    → b < length items
    → relink_head b p s
      ≡ done tt (record {
        ht = live (record {
          capacity = n;
          items = if get_or items b null == p then set items b item.next else items;
          locks = ls;
        });
        heap = s.heap;
      })
unfolding relink_head item_at
relink_head-done s n items ls b p item ne e eh h =
    let s' : Store = record {
      ht = live (record { capacity = n; items = items; locks = ls });
      heap = s.heap;
    } in
    rw (eh, get_elem?-get_or items b null h)
      (elim (Bool-cases (get_or items b null == p)) [
        | inl hit ↦ rw hit (rw (load-head s' ne e, set_item-done s' n items ls b item.next refl h))
        | inr miss ↦ rw miss refl
      ])
