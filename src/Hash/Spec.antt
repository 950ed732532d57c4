-- ===== src/Hash/Spec.antt =====
-- What the operations of the hash table do to the chain of a bucket.
use rdma_kv_store.Base.{
  ◌≡◌, true, ℕ, List, [], ◌∷◌, ◌++◌, none, some, arith, if◌then◌else◌, ℤ, pos, negsuc, refl, false,
  inl, inr, Bool-cases, length, ◌≤◌,
}
use rdma_kv_store.Common.CString.{starts_with}
use rdma_kv_store.Hash.State.{RwLock, try_wrlock, rw_unlock}
use rdma_kv_store.Hash.Chain.{Cell, lookup}

-- The chain without the first cell whose text starts with `t`.
unfoldable pub erase : List ℕ → List Cell → List Cell
erase t [] = []
erase t (c ∷ xs) = if starts_with c.text t then xs else c ∷ erase t xs

-- The chain with that cell replaced.
unfoldable pub assign : List ℕ → Cell → List Cell → List Cell
assign t new [] = []
assign t new (c ∷ xs) = if starts_with c.text t then new ∷ xs else c ∷ assign t new xs

module _ (t : List ℕ) where
  pub erase-split :
      (before after : List Cell) (c : Cell)
      → lookup t before ≡ none
      → starts_with c.text t ≡ true
      → erase t (before ++ c ∷ after) ≡ before ++ after
  unfolding erase lookup
  erase-split [] after c missed hit = rw hit
  erase-split (x ∷ before) after c missed hit = ground (arith, erase-split before after c)

  pub assign-split :
      (before after : List Cell) (c new : Cell)
      → lookup t before ≡ none
      → starts_with c.text t ≡ true
      → assign t new (before ++ c ∷ after) ≡ before ++ new ∷ after
  unfolding assign lookup
  assign-split [] after c new missed hit = rw hit
  assign-split (x ∷ before) after c new missed hit = ground (arith, assign-split before after c new)

-- What `remove_item` answers, and what is left of the chain. An item that somebody holds stays,
-- and loses one hold.
unfoldable pub remove_spec : List ℕ → List Cell → ℤ × List Cell
remove_spec t xs = elim (lookup t xs) [
  | none ↦ (negsuc 0, xs)
  | some c ↦ elim (try_wrlock c.rwlock) [
    | some _ ↦ (pos 0, erase t xs)
    | none ↦ (negsuc 0, assign t (record c { rwlock = rw_unlock c.rwlock }) xs)
  ]
]

module _ (t : List ℕ) (xs : List Cell) where
  pub remove_spec-none : lookup t xs ≡ none → remove_spec t xs ≡ (negsuc 0, xs)
  unfolding remove_spec
  remove_spec-none e = rw (e, remove_spec)

  pub remove_spec-erase :
      (c : Cell) (lock : RwLock)
      → lookup t xs ≡ some c
      → try_wrlock c.rwlock ≡ some lock
      → remove_spec t xs ≡ (pos 0, erase t xs)
  unfolding remove_spec
  remove_spec-erase c lock e free = ground arith

  pub remove_spec-held :
      (c : Cell)
      → lookup t xs ≡ some c
      → try_wrlock c.rwlock ≡ none
      → remove_spec t xs ≡ (negsuc 0, assign t (record c { rwlock = rw_unlock c.rwlock }) xs)
  unfolding remove_spec
  remove_spec-held c e held = ground arith

module _ (t : List ℕ) where
  pub lookup-starts_with :
      (xs : List Cell) (c : Cell) → lookup t xs ≡ some c → starts_with c.text t ≡ true
  unfolding lookup
  lookup-starts_with [] c e = absurd (ground arith)
  lookup-starts_with (x ∷ xs) c e = elim (Bool-cases (starts_with x.text t)) [
    | inl hit ↦ let same : x ≡ c = ground arith in rw (← same) hit
    | inr miss ↦ lookup-starts_with xs c (rw miss at e)
  ]

  pub lookup-assign_self :
      (xs : List Cell) (c c' : Cell)
      → lookup t xs ≡ some c
      → starts_with c'.text t ≡ true
      → lookup t (assign t c' xs) ≡ some c'
  unfolding lookup assign
  lookup-assign_self [] c c' e hit = absurd (ground arith)
  lookup-assign_self (x ∷ xs) c c' e hit = ground (arith, lookup-assign_self xs c c')

  -- A change of the entry of `t` is not seen under a key that the entry's text does not start with.
  pub lookup-assign_other :
      (u : List ℕ) (xs : List Cell) (c c' : Cell)
      → lookup t xs ≡ some c
      → starts_with c.text u ≡ false
      → starts_with c'.text u ≡ false
      → lookup u (assign t c' xs) ≡ lookup u xs
  unfolding lookup assign
  lookup-assign_other u [] c c' e h k = refl
  lookup-assign_other u (x ∷ xs) c c' e h k = elim (Bool-cases (starts_with x.text t)) [
    | inl hit ↦ let same : x ≡ c = ground arith in rw (hit, same) (ground arith)
    | inr miss ↦ rw miss (ground (arith, lookup-assign_other u xs c c'))
  ]

  pub length-assign : (xs : List Cell) (c : Cell) → length (assign t c xs) ≡ length xs
  unfolding assign
  length-assign [] c = refl
  length-assign (x ∷ xs) c = ground (arith, length-assign xs c)

  pub length-erase : (xs : List Cell) → length (erase t xs) ≤ length xs
  unfolding erase
  length-erase [] = omega arith
  length-erase (x ∷ xs) = ground (arith, length-erase xs)

  pub lookup-append : (xs ys : List Cell) → lookup t xs ≡ none → lookup t (xs ++ ys) ≡ lookup t ys
  unfolding lookup
  lookup-append [] ys h = refl
  lookup-append (x ∷ xs) ys h = ground (arith, lookup-append xs ys)
