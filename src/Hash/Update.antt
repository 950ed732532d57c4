-- ===== src/Hash/Update.antt =====
-- One cell of a bucket overwritten in place.
use rdma_kv_store.Base.{
  ℕ, ◌<◌, ◌≡◌, Bool, ◌||◌, List, [], ◌∷◌, ◌++◌, some, arith, ◌==◌, set, set-get_or, refl, ap, ◌∙◌,
}
use rdma_kv_store.Hash.State.{null, Heap, Store}
use rdma_kv_store.Hash.Chain.{Cell, item_of, head_or, last_addr, has, IsCell, Linked, SameOutside}
use rdma_kv_store.Hash.Splice.{has-append, head_or-append, Linked-replace, Linked-right}
use rdma_kv_store.Hash.Model.{Chains, chain, Models, Models-set}

module _ {n : ℕ} {ls : List Bool} {cs : Chains} (s : Store) (m : Models n ls cs s) (b : ℕ)
    (inside : b < n) (before after : List Cell) (c : Cell)
    (whole : chain cs b ≡ before ++ c ∷ after) where
  pub all_linked : Linked s.heap null (before ++ c ∷ after) null
  all_linked = rw whole at (m.linked b)

  -- The item of the cell in the middle.
  pub item_at_cell : s.heap c.addr ≡ some (item_of c (last_addr null before) (head_or null after))
  item_at_cell = (Linked-right s.heap (c ∷ after) null null before all_linked).1

  pub outside : (a : ℕ) → has a (chain cs b) ≡ (has a before || ((a == c.addr) || has a after))
  outside a = ap (has a) whole ∙ has-append a before (c ∷ after)

  -- One cell of a bucket is overwritten.
  pub replace-Models :
      (c' : Cell) (g : Heap)
      → IsCell c'
      → c'.addr ≡ c.addr
      → SameOutside (c ∷ []) s.heap g
      → g c.addr ≡ some (item_of c' (last_addr null before) (head_or null after))
      → Models n ls (set cs b (before ++ c' ∷ after)) (record s { heap = g })
  replace-Models c' g ok same_addr same e = rw m.ht (
      Models-set s m b (before ++ c' ∷ after) m.items g inside m.items_width
        (λ i. ground (
          arith,
          m.heads b,
          ap (head_or null) whole,
          head_or-append null before (c ∷ after),
          head_or-append null before (c' ∷ after),
        ))
        (Linked-replace s.heap g before after c c' all_linked ok same_addr same e)
        (λ a o used. same a (ground (arith, outside a)))
        (λ a i o. ground (arith, outside a, has-append a before (c' ∷ after))))

  -- A cell that is written and put back as it was.
  pub same_cell-Models :
      (g : Heap)
      → SameOutside (c ∷ []) s.heap g
      → g c.addr ≡ some (item_of c (last_addr null before) (head_or null after))
      → Models n ls cs (record s { heap = g })
  same_cell-Models g same e =
      let here = (Linked-right s.heap (c ∷ after) null null before all_linked).0 in
      let back : set cs b (before ++ c ∷ after) ≡ cs = rw (← whole) (set-get_or cs b []) in
      rw back at (replace-Models c g here refl same e)
