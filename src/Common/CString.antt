-- ===== src/Common/CString.antt =====
-- NUL-terminated strings in byte buffers, as `*str++` and the C library's `strncmp` read them.
-- `none` is a read past the end of the buffer.
use rdma_kv_store.Base.{
  ℕ, zero, suc, ◌≡◌, refl, Bool, true, false, Option, none, some, List, [], ◌∷◌, ◌++◌, arith, ◌==◌,
  if◌then◌else◌, length,
}

abbrev pub cons_char : ℕ → Option (List ℕ) → Option (List ℕ)
cons_char c none = none
cons_char c (some s) = some (c ∷ s)

-- The characters before the first NUL.
unfoldable pub cstr : List ℕ → Option (List ℕ)
cstr [] = none
cstr (zero ∷ bs) = some []
cstr (suc c ∷ bs) = cons_char (suc c) (cstr bs)

-- `strncmp(a, b, n) == 0`
unfoldable pub strncmp_eq : ℕ → List ℕ → List ℕ → Option Bool
strncmp_eq zero a b = some true
strncmp_eq (suc n) [] b = none
strncmp_eq (suc n) (x ∷ a) [] = none
strncmp_eq (suc n) (x ∷ a) (y ∷ b) =
    let rest = strncmp_eq n a b in
    if x == y then (if x == 0 then some true else rest) else some false

-- A text that starts with another.
unfoldable pub starts_with : List ℕ → List ℕ → Bool
starts_with s [] = true
starts_with [] (y ∷ t) = false
starts_with (x ∷ s) (y ∷ t) = if x == y then starts_with s t else false

cons_char-some :
    (c : ℕ) (o : Option (List ℕ)) (t : List ℕ)
    → cons_char c o ≡ some t
    → (r : List ℕ) × (o ≡ some r) × (t ≡ c ∷ r)
cons_char-some c none t h = cc
cons_char-some c (some r) t h = (r, refl, cc)

pub cons_char-cstr :
    (c : ℕ) (b t : List ℕ)
    → cstr (suc c ∷ b) ≡ some t
    → (r : List ℕ) × (cstr b ≡ some r) × (t ≡ suc c ∷ r)
unfolding cstr
cons_char-cstr c b t h = cons_char-some (suc c) (cstr b) t h

-- For two buffers that hold texts, strncmp over the length of the second text stays inside both,
-- and reports equality exactly when the first text starts with the second.
pub strncmp-prefix :
    (a b : List ℕ) {s t : List ℕ}
    → cstr a ≡ some s
    → cstr b ≡ some t
    → strncmp_eq (length t) a b ≡ some (starts_with s t)
unfolding strncmp_eq starts_with
strncmp-prefix [] b ha hb = unfold cstr in cc
strncmp-prefix (x ∷ a) [] ha hb = unfold cstr in cc
strncmp-prefix (x ∷ a) (zero ∷ b) {t} ha hb =
    let e : t ≡ [] = (unfold cstr in cc) in rw e (ground arith)
strncmp-prefix (zero ∷ a) (suc d ∷ b) {s} ha hb =
    let e : s ≡ [] = (unfold cstr in cc) in
    let (r, hr, et) = cons_char-cstr d b _ hb in rw (e, et) (ground arith)
strncmp-prefix (suc c ∷ a) (suc d ∷ b) ha hb =
    let (r, hr, es) = cons_char-cstr c a _ ha in
    let (q, hq, et) = cons_char-cstr d b _ hb in
    rw (es, et) (ground (arith, strncmp-prefix a b hr hq))

pub starts_with_refl : (t : List ℕ) → starts_with t t ≡ true
unfolding starts_with
starts_with_refl [] = refl
starts_with_refl (x ∷ t) = ground (arith, starts_with_refl t)

-- Two prefixes of one text are comparable.
pub starts_with_comparable :
    (s t u : List ℕ)
    → starts_with s t ≡ true
    → starts_with s u ≡ true
    → starts_with t u ≡ false
    → starts_with u t ≡ true
unfolding starts_with
starts_with_comparable s [] u h k apart = refl
starts_with_comparable s (y ∷ t) [] h k apart = absurd (ground arith)
starts_with_comparable [] (y ∷ t) (z ∷ u) h k apart = absurd (ground arith)
starts_with_comparable (x ∷ s) (y ∷ t) (z ∷ u) h k apart =
    ground (arith, starts_with_comparable s t u)

pub starts_with_append : (t w : List ℕ) → starts_with (t ++ w) t ≡ true
unfolding starts_with
starts_with_append [] w = refl
starts_with_append (x ∷ t) w = ground (arith, starts_with_append t w)
