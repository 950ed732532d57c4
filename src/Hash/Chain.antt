-- ===== src/Hash/Chain.antt =====
-- One bucket as a doubly linked chain on the heap, and the walk of `search` along it.
use rdma_kv_store.Base.{
  ℕ, zero, suc, ◌≤◌, ◌<◌, ◌≡◌, refl, ◌≢◌, inl, inr, Bool, true, false, ◌||◌, List, [], ◌∷◌, Option,
  none, some, arith, ◌==◌, if◌then◌else◌, length, Bool-cases,
}
use rdma_kv_store.Machine.{done}
use rdma_kv_store.Common.{msg_size}
use rdma_kv_store.Common.CString.{cstr, starts_with, strncmp-prefix}
use rdma_kv_store.Hash.State.{Ptr, null, RwLock, HashItem, Heap, Store, load}
use rdma_kv_store.Hash.Table.{search_loop}

-- What an item holds, with its address and the text in its key buffer.
pub record Cell : Type 0 where
  pub addr : Ptr
  pub buffer : List ℕ
  pub text : List ℕ
  pub value : Option (List ℕ)
  pub value_size : ℕ
  pub rwlock : RwLock

abbrev pub item_of : Cell → Ptr → Ptr → HashItem
item_of c prev next = record {
  next = next;
  prev = prev;
  key = some c.buffer;
  value = c.value;
  value_size = c.value_size;
  rwlock = c.rwlock;
}

-- The address of the first cell, or where the chain leads if there is none.
abbrev pub head_or : Ptr → List Cell → Ptr
head_or stop [] = stop
head_or stop (c ∷ xs) = c.addr

abbrev pub last_addr : Ptr → List Cell → Ptr
last_addr prev [] = prev
last_addr prev (c ∷ xs) = last_addr c.addr xs

abbrev pub has : Ptr → List Cell → Bool
has a [] = false
has a (c ∷ xs) = (a == c.addr) || has a xs

-- A value buffer has room for `MSG_SIZE` bytes, and the used part fits; an item that was never
-- set uses none.
abbrev pub IsRoom : Option (List ℕ) → ℕ → Type 0
IsRoom none n = n ≡ 0
IsRoom (some v) n = (length v ≡ msg_size) × (n ≤ msg_size)

pub record IsCell (c : Cell) : Type 0 where
  pub ne_null : c.addr ≢ null
  pub key_text : cstr c.buffer ≡ some c.text
  pub room : IsRoom c.value c.value_size

-- Between `prev` and `stop` the chain `xs` hangs together in both directions, over distinct
-- addresses.
abbrev pub Linked : Heap → Ptr → List Cell → Ptr → Type 0
Linked h prev [] stop = Unit
Linked h prev (c ∷ xs) stop =
    IsCell c
    × (h c.addr ≡ some (item_of c prev (head_or stop xs)))
    × (has c.addr xs ≡ false)
    × Linked h c.addr xs stop

-- `g` differs from `h` at most at the addresses of `xs`.
abbrev pub SameOutside : List Cell → Heap → Heap → Type 0
SameOutside xs h g = (a : Ptr) → has a xs ≡ false → g a ≡ h a

-- A chain survives every change that spares its own addresses.
pub Linked-frame :
    (h g : Heap) (prev : Ptr) (xs : List Cell) (stop : Ptr)
    → Linked h prev xs stop
    → ((a : Ptr) → has a xs ≡ true → g a ≡ h a)
    → Linked g prev xs stop
Linked-frame h g prev [] stop l same = tt
Linked-frame h g prev (c ∷ xs) stop l same = (
  l.0,
  ground (arith, same c.addr),
  l.2,
  Linked-frame h g c.addr xs stop l.3 λ a i. same a (ground arith),
)

-- An address of the chain is in use, and is not NULL.
pub Linked-holds :
    (h : Heap) (prev : Ptr) (xs : List Cell) (stop a : Ptr)
    → Linked h prev xs stop
    → has a xs ≡ true
    → (h a ≢ none) × (a ≢ null)
Linked-holds h prev [] stop a l i = absurd (ground arith)
Linked-holds h prev (c ∷ xs) stop a l i = elim (Bool-cases (a == c.addr)) [
  | inl e ↦ (ground (arith, l.1), ground (arith, l.0.ne_null))
  | inr e ↦ Linked-holds h c.addr xs stop a l.3 (rw e at i)
]

-- The first cell whose text starts with `t`.
unfoldable pub lookup : List ℕ → List Cell → Option Cell
lookup t [] = none
lookup t (c ∷ xs) = if starts_with c.text t then some c else lookup t xs

abbrev pub addr_of : Option Cell → Ptr
addr_of none = null
addr_of (some c) = c.addr

pub load-head :
    {p : Ptr} {item : HashItem} (s : Store)
    → p ≢ null
    → s.heap p ≡ some item
    → load p s ≡ done item s
unfolding load
load-head s ne e = rw e (ground arith)

-- With more fuel than the chain is long, the loop of search over a linked chain ends at the first
-- entry whose key starts with the one it is given, or at NULL, and changes nothing.
pub search_loop-lookup :
    (fuel : ℕ) (s : Store) (key t : List ℕ) (prev : Ptr) (xs : List Cell)
    → Linked s.heap prev xs null
    → cstr key ≡ some t
    → length xs < fuel
    → search_loop fuel key (length t) (head_or null xs) s ≡ done (addr_of (lookup t xs)) s
unfolding search_loop lookup
search_loop-lookup zero s key t prev xs l e f = absurd (omega arith)
search_loop-lookup (suc fuel) s key t prev [] l e f = refl
search_loop-lookup (suc fuel) s key t prev (c ∷ xs) l e f =
    let skip : (c.addr == null) ≡ false = ground (arith, l.0.ne_null) in
    rw (skip, load-head s l.0.ne_null l.1, strncmp-prefix c.buffer key l.0.key_text e)
      (elim (Bool-cases (starts_with c.text t)) [
        | inl hit ↦ rw hit refl
        | inr miss ↦ rw miss (search_loop-lookup fuel s key t c.addr xs l.3 e (omega arith))
      ])

-- What the walk finds is a cell of the chain.
pub lookup-has :
    (t : List ℕ) (h : Heap) (prev : Ptr) (xs : List Cell) (stop : Ptr) (c : Cell)
    → Linked h prev xs stop
    → lookup t xs ≡ some c
    → IsCell c × (has c.addr xs ≡ true)
unfolding lookup
lookup-has t h prev [] stop c l e = absurd (ground arith)
lookup-has t h prev (x ∷ xs) stop c l e = elim (Bool-cases (starts_with x.text t)) [
  | inl hit ↦ let same : x ≡ c = ground arith in (rw same at l.0, ground arith)
  | inr miss ↦
      let (ok, i) = lookup-has t h x.addr xs stop c l.3 (rw miss at e) in (ok, ground arith)
]
