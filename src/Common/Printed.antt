-- ===== src/Common/Printed.antt =====
-- Texts printed into byte buffers, as `sprintf` and `strlen` of the C library do it.
use rdma_kv_store.Base.{
  ℕ, zero, suc, ◌+◌, ◌≤◌, ◌≡◌, refl, ap, Bool, true, false, Option, none, some, List, [], ◌∷◌, ◌++◌,
  arith, leb, if◌then◌else◌, length, drop, length-append, length-drop, le→leb,
}
use rdma_kv_store.Common.CString.{cons_char, cstr}

-- The buffer after `sprintf(dst, ...)` has printed the text; `none` where the text and its NUL do not fit.
unfoldable pub sprintf : List ℕ → List ℕ → Option (List ℕ)
sprintf dst text =
    if leb (length text + 1) (length dst)
    then some (text ++ 0 ∷ drop (length text + 1) dst)
    else none

-- `none` is a read past the end of the buffer.
abbrev pub strlen_of : Option (List ℕ) → Option ℕ
strlen_of none = none
strlen_of (some s) = some (length s)

abbrev pub strlen : List ℕ → Option ℕ
strlen b = strlen_of (cstr b)

-- There is no NUL among the characters.
unfoldable pub no_nul : List ℕ → Bool
no_nul [] = true
no_nul (zero ∷ s) = false
no_nul (suc c ∷ s) = no_nul s

pub no_nul-append : (s t : List ℕ) → no_nul s ≡ true → no_nul t ≡ true → no_nul (s ++ t) ≡ true
unfolding no_nul
no_nul-append [] t h k = k
no_nul-append (zero ∷ s) t h k = absurd cc
no_nul-append (suc c ∷ s) t h k = no_nul-append s t h k

-- What is printed is read back.
pub cstr-text : (s rest : List ℕ) → no_nul s ≡ true → cstr (s ++ 0 ∷ rest) ≡ some s
unfolding no_nul cstr
cstr-text [] rest h = refl
cstr-text (zero ∷ s) rest h = absurd cc
cstr-text (suc c ∷ s) rest h = ap (cons_char (suc c)) (cstr-text s rest h)

pub sprintf-some :
    (dst text : List ℕ)
    → length text + 1 ≤ length dst
    → sprintf dst text ≡ some (text ++ 0 ∷ drop (length text + 1) dst)
unfolding sprintf
sprintf-some dst text h = rw (le→leb (length text + 1) (length dst) h) refl

-- A buffer keeps its length.
pub length-printed :
    (dst text : List ℕ)
    → length text + 1 ≤ length dst
    → length (text ++ 0 ∷ drop (length text + 1) dst) ≡ length dst
length-printed dst text h =
    omega (
      arith,
      length-append text (0 ∷ drop (length text + 1) dst),
      length-drop (length text + 1) dst,
    )
