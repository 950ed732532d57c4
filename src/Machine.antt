-- ===== src/Machine.antt =====
-- Runs of C code over a state: a result, or the undefined behaviour or wait that ends the run.
use rdma_kv_store.Base.{
  ℕ, ◌≡◌, refl, List, ◌++◌, Option, none, some, leb, ◌&&◌, if◌then◌else◌, length, take, drop, ◌≤◌,
  ◌<◌, arith,
}

pub data Fault : Type 0 where
  null_pointer : Fault
  -- the use of a pointer that was never set
  wild_pointer : Fault
  -- the use of memory that was given back
  use_after_free : Fault
  -- a signed integer that leaves its range
  int_overflow : Fault
  out_of_bounds : Fault
  division_by_zero : Fault
  -- the use of a value that was never set
  uninitialised : Fault

pub data Run (S A : Type 0) : Type 0 where
  done : A → S → Run S A
  -- undefined behaviour
  fault : Fault → Run S A
  -- a wait for a mutex that is held
  blocked : Run S A
  -- the process ends with a status
  exited : ℕ → S → Run S A
  -- the fuel of a loop ran out
  out_of_fuel : Run S A

abbrev pub Cmd : Type 0 → Type 0 → Type 0
Cmd S A = S → Run S A

abbrev pub pure : {S A : Type 0} → A → Cmd S A
pure = done

module _ {S A B : Type 0} where
  abbrev pub and_then : Run S A → (A → Cmd S B) → Run S B
  and_then (done a s) k = k a s
  and_then (fault f) k = fault f
  and_then blocked k = blocked
  and_then (exited status s) k = exited status s
  and_then out_of_fuel k = out_of_fuel

  infixl 5 ◌>>=◌ ◌>>◌
  abbrev pub ◌>>=◌ : Cmd S A → (A → Cmd S B) → Cmd S B
  m >>= k = λ s. and_then (m s) k

  abbrev pub ◌>>◌ : Cmd S A → Cmd S B → Cmd S B
  m >> n = m >>= λ _. n

-- A value that is missing where the code relies on it.
abbrev pub require : {S A : Type 0} → Fault → Option A → Cmd S A
require f none s = fault f
require f (some a) s = done a s

-- `memcpy(dst, src, n)`: the new contents of `dst`.
unfoldable pub memcpy : List ℕ → List ℕ → ℕ → Option (List ℕ)
memcpy dst src n =
    if leb n (length src) && leb n (length dst) then some (take n src ++ drop n dst) else none

-- Total correctness of a run: it ends without a fault, with a postcondition.
pub data Returns {S A : Type 0} (P : A → S → Type 0) : Run S A → Type 0 where
  returns : {a : A} {s : S} → P a s → Returns P (done a s)

module _ {S A : Type 0} {P : A → S → Type 0} where
  pub Returns-bind :
      {B : Type 0} {Q : B → S → Type 0} {r : Run S A} {k : A → Cmd S B}
      → Returns P r
      → ((a : A) (s : S) → P a s → Returns Q (k a s))
      → Returns Q (and_then r k)
  Returns-bind (returns p) next = next _ _ p

  pub Returns-mono :
      {Q : A → S → Type 0} {r : Run S A}
      → Returns P r
      → ((a : A) (s : S) → P a s → Q a s)
      → Returns Q r
  Returns-mono (returns p) weaken = returns (weaken _ _ p)

  pub Returns-run : {r : Run S A} → Returns P r → (a : A) × (s : S) × (r ≡ done a s) × P a s
  Returns-run (returns {a} {s} p) = (a, s, refl, p)

pub memcpy-some :
    (dst src : List ℕ) (n : ℕ)
    → n ≤ length src
    → n ≤ length dst
    → memcpy dst src n ≡ some (take n src ++ drop n dst)
unfolding memcpy
memcpy-some dst src n h k = ground arith

pub memcpy-none : (dst src : List ℕ) (n : ℕ) → length src < n → memcpy dst src n ≡ none
unfolding memcpy
memcpy-none dst src n h = ground arith
