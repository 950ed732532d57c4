-- ===== src/Hash/Splice.antt =====
-- Chains taken apart, joined and relinked.
use rdma_kv_store.Base.{
  ℕ, ◌≡◌, refl, ap, inl, inr, true, false, ◌||◌, List, [], ◌∷◌, ◌++◌, none, some, arith, ◌==◌,
  Bool-cases,
}
use rdma_kv_store.Common.CString.{starts_with}
use rdma_kv_store.Hash.State.{Ptr, null, Heap}
use rdma_kv_store.Hash.Chain.{
  Cell, item_of, head_or, last_addr, has, IsCell, Linked, Linked-frame, SameOutside, lookup,
}

pub has-append : (a : Ptr) (xs ys : List Cell) → has a (xs ++ ys) ≡ (has a xs || has a ys)
has-append a [] ys = refl
has-append a (c ∷ xs) ys = ground (arith, has-append a xs ys)

pub head_or-append :
    (stop : Ptr) (xs ys : List Cell) → head_or stop (xs ++ ys) ≡ head_or (head_or stop ys) xs
head_or-append stop [] ys = refl
head_or-append stop (c ∷ xs) ys = refl

module _ (h : Heap) (ys : List Cell) (stop : Ptr) where
  pub Linked-left :
      (prev : Ptr) (xs : List Cell)
      → Linked h prev (xs ++ ys) stop
      → Linked h prev xs (head_or stop ys)
  Linked-left prev [] l = tt
  Linked-left prev (c ∷ xs) l = (
    l.0,
    rw (← head_or-append stop xs ys) l.1,
    ground (arith, has-append c.addr xs ys),
    Linked-left c.addr xs l.3,
  )

  pub Linked-right :
      (prev : Ptr) (xs : List Cell)
      → Linked h prev (xs ++ ys) stop
      → Linked h (last_addr prev xs) ys stop
  Linked-right prev [] l = l
  Linked-right prev (c ∷ xs) l = Linked-right c.addr xs l.3

  pub Linked-apart :
      (prev : Ptr) (xs : List Cell) (a : Ptr)
      → Linked h prev (xs ++ ys) stop
      → has a xs ≡ true
      → has a ys ≡ false
  Linked-apart prev [] a l i = absurd (ground arith)
  Linked-apart prev (c ∷ xs) a l i = elim (Bool-cases (a == c.addr)) [
    | inl e ↦ ground (arith, has-append a xs ys)
    | inr e ↦ Linked-apart c.addr xs a l.3 (rw e at i)
  ]

  pub Linked-join :
      (prev : Ptr) (xs : List Cell)
      → Linked h prev xs (head_or stop ys)
      → Linked h (last_addr prev xs) ys stop
      → ((a : Ptr) → has a xs ≡ true → has a ys ≡ false)
      → Linked h prev (xs ++ ys) stop
  Linked-join prev [] l r apart = r
  Linked-join prev (c ∷ xs) l r apart = (
    l.0,
    rw (head_or-append stop xs ys) l.1,
    ground (arith, has-append c.addr xs ys, apart c.addr),
    Linked-join c.addr xs l.3 r (λ a i. apart a (ground arith)),
  )

-- A new last `next`.
pub Linked-set_last :
    (h g : Heap) (prev : Ptr) (xs : List Cell) (stop stop' : Ptr) (c : Cell)
    → Linked h prev (xs ++ c ∷ []) stop
    → SameOutside (c ∷ []) h g
    → g c.addr ≡ some (item_of c (last_addr prev xs) stop')
    → Linked g prev (xs ++ c ∷ []) stop'
Linked-set_last h g prev [] stop stop' c l same e = (l.0, e, refl, tt)
Linked-set_last h g prev (x ∷ xs) stop stop' c l same e = (
  l.0,
  rw (head_or-append stop' xs (c ∷ []), ← head_or-append stop xs (c ∷ []))
      (ground (arith, same x.addr, has-append x.addr xs (c ∷ []))),
  l.2,
  Linked-set_last h g x.addr xs stop stop' c l.3 same e,
)

-- One cell replaced by another at its address.
pub Linked-replace :
    (h g : Heap) (before after : List Cell) (c c' : Cell)
    → Linked h null (before ++ c ∷ after) null
    → IsCell c'
    → c'.addr ≡ c.addr
    → SameOutside (c ∷ []) h g
    → g c.addr ≡ some (item_of c' (last_addr null before) (head_or null after))
    → Linked g null (before ++ c' ∷ after) null
Linked-replace h g before after c c' l ok same_addr same e =
    let right = Linked-right h (c ∷ after) null null before l in
    Linked-join g (c' ∷ after) null null before
      (rw same_addr (
        Linked-frame h g null before c.addr (Linked-left h (c ∷ after) null null before l)
          λ a i. same a (ground (arith, Linked-apart h (c ∷ after) null null before a l))))
      (
        ok,
        rw same_addr e,
        rw same_addr right.2,
        rw same_addr
            (Linked-frame h g c.addr after null right.3 λ a i. same a (ground (arith, right.2))),
      )
      (λ a i. rw same_addr (Linked-apart h (c ∷ after) null null before a l i))

-- The cell that the walk finds splits the chain behind cells that do not match.
pub record IsSplit (t : List ℕ) (xs : List Cell) (c : Cell) (before after : List Cell)
    : Type 0 where
  pub whole : xs ≡ before ++ c ∷ after
  pub missed : lookup t before ≡ none
  pub hit : starts_with c.text t ≡ true

pub lookup-IsSplit :
    (t : List ℕ) (xs : List Cell) (c : Cell)
    → lookup t xs ≡ some c
    → (before : List Cell) × (after : List Cell) × IsSplit t xs c before after
unfolding lookup
lookup-IsSplit t [] c e = absurd (ground arith)
lookup-IsSplit t (x ∷ xs) c e = elim (Bool-cases (starts_with x.text t)) [
  | inl hit ↦
      let same : x ≡ c = ground arith in
      ([], xs, record { whole = ap (λ y. y ∷ xs) same; missed = refl; hit = rw (← same) hit })
  | inr miss ↦
      let (before, after, sp) = lookup-IsSplit t xs c (rw miss at e) in
      (
        x ∷ before,
        after,
        record { whole = ap (λ ys. x ∷ ys) sp.whole; missed = rw miss sp.missed; hit = sp.hit },
      )
]
