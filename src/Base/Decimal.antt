-- ===== src/Base/Decimal.antt =====
-- C's `%d`: numbers as their decimal digits, and the reading of them.
use Prim.Native.Nat.{ℕ, zero, suc, ◌+◌, ◌-◌, ◌*◌, ◌/◌, ◌%◌, ◌≤◌, ◌<◌}
use mathlib.Core.Path.{◌≡◌, refl, ◌∙◌}
use mathlib.Core.Bool.{Bool, true, false, ◌&&◌, not}
use mathlib.Core.List.{List, [], ◌∷◌, ◌++◌}
use native.Mathlib.Omega.{arith}
use rdma_kv_store.Base.Tests.{◌==◌, leb, if◌then◌else◌}
use rdma_kv_store.Base.Lists.{length}
use rdma_kv_store.Base.CInt.{ℤ, pos, negsuc, neg}

-- The digits of `n` in front of `out`, for a number of rounds.
unfoldable pub digits : ℕ → ℕ → List ℕ → List ℕ
digits zero n out = out
digits (suc rounds) n out =
    let more = digits rounds (n / 10) ((48 + n % 10) ∷ out) in if n == 0 then out else more

unfoldable pub decimal : ℕ → List ℕ
unfolding digits
decimal n = if n == 0 then 48 ∷ [] else digits n n []

-- `%d`
unfoldable pub int_text : ℤ → List ℕ
unfolding decimal
int_text (pos n) = decimal n
int_text (negsuc n) = 45 ∷ decimal (suc n)

abbrev pub is_digit : ℕ → Bool
is_digit c = leb 48 c && leb c 57

-- The number that the digits at the front spell behind `n`, and what follows them.
unfoldable pub read_digits : ℕ → List ℕ → ℕ × List ℕ
read_digits n [] = (n, [])
read_digits n (c ∷ s) =
    let more = read_digits (n * 10 + (c - 48)) s in if is_digit c then more else (n, c ∷ s)

-- The text of an `int`, and what follows it.
unfoldable pub read_int : List ℕ → ℤ × List ℕ
unfolding read_digits
read_int [] = (pos 0, [])
read_int (c ∷ s) =
    if c == 45
    then (neg (read_digits 0 s).0, (read_digits 0 s).1)
    else (pos (read_digits 0 (c ∷ s)).0, (read_digits 0 (c ∷ s)).1)

digits-append :
    (rounds n : ℕ) (out rest : List ℕ) → digits rounds n (out ++ rest) ≡ digits rounds n out ++ rest
unfolding digits
digits-append zero n out rest = refl
digits-append (suc rounds) n out rest =
    ground (arith, digits-append rounds (n / 10) ((48 + n % 10) ∷ out) rest)

read_digits-digits :
    (rounds n : ℕ) (out : List ℕ)
    → n ≤ rounds
    → read_digits 0 (digits rounds n out) ≡ read_digits n out
unfolding digits read_digits
read_digits-digits zero n out h = let e : n ≡ 0 = omega arith in rw e refl
read_digits-digits (suc rounds) n out h =
    ground (arith, read_digits-digits rounds (n / 10) ((48 + n % 10) ∷ out))

-- Reading the decimal digits of a number in front of a text gives it back.
pub read_digits-decimal :
    (n : ℕ) (rest : List ℕ) → read_digits 0 (decimal n ++ rest) ≡ read_digits n rest
unfolding decimal read_digits
read_digits-decimal n rest = ground (arith, digits-append n n [] rest, read_digits-digits n n rest)

-- `10 ^ k`
abbrev pub pow10 : ℕ → ℕ
pow10 zero = 1
pow10 (suc k) = 10 * pow10 k

length-digits :
    (rounds k n : ℕ) (out : List ℕ) → n < pow10 k → length (digits rounds n out) ≤ k + length out
unfolding digits
length-digits zero k n out h = omega arith
length-digits (suc rounds) zero n out h = ground arith
length-digits (suc rounds) (suc k) n out h =
    ground (arith, length-digits rounds k (n / 10) ((48 + n % 10) ∷ out) (omega arith))

-- A number below 10 ^ k has at most k digits, and at least one.
pub length-decimal : (k n : ℕ) → n < pow10 (suc k) → length (decimal n) ≤ suc k
unfolding decimal
length-decimal k n h = ground (arith, length-digits n (suc k) n [] h)

-- A text that does not start with a minus sign.
abbrev pub unsigned : List ℕ → Bool
unsigned [] = false
unsigned (c ∷ s) = not (c == 45)

unsigned-digits :
    (rounds n : ℕ) (out rest : List ℕ)
    → unsigned (out ++ rest) ≡ true
    → unsigned (digits rounds n out ++ rest) ≡ true
unfolding digits
unsigned-digits zero n out rest h = h
unsigned-digits (suc rounds) n out rest h =
    ground (arith, unsigned-digits rounds (n / 10) ((48 + n % 10) ∷ out) rest)

unsigned-decimal : (n : ℕ) (rest : List ℕ) → unsigned (decimal n ++ rest) ≡ true
unfolding decimal digits
unsigned-decimal zero rest = refl
unsigned-decimal (suc n) rest =
    ground (arith, unsigned-digits n (suc n / 10) ((48 + suc n % 10) ∷ []) rest)

read_int-unsigned :
    (s : List ℕ) → unsigned s ≡ true → read_int s ≡ (pos (read_digits 0 s).0, (read_digits 0 s).1)
unfolding read_int
read_int-unsigned [] h = absurd cc
read_int-unsigned (c ∷ s) h = ground arith

-- A text that does not start with a digit ends the number before it.
abbrev pub ends_number : List ℕ → Bool
ends_number [] = true
ends_number (c ∷ s) = not (is_digit c)

read_digits-ends : (n : ℕ) (s : List ℕ) → ends_number s ≡ true → read_digits n s ≡ (n, s)
unfolding read_digits
read_digits-ends n [] h = refl
read_digits-ends n (c ∷ s) h = ground arith

-- Reading the text of an `int` gives it back, with what follows it.
pub read_int-int_text :
    (x : ℤ) (rest : List ℕ) → ends_number rest ≡ true → read_int (int_text x ++ rest) ≡ (x, rest)
unfolding int_text
read_int-int_text (pos n) rest h =
    rw
      (
        read_int-unsigned (decimal n ++ rest) (unsigned-decimal n rest),
        read_digits-decimal n rest,
        read_digits-ends n rest h,
      )
      refl
read_int-int_text (negsuc n) rest h =
    unfold read_int in rw (read_digits-decimal (suc n) rest, read_digits-ends (suc n) rest h) refl

digits-rounds : (r q n : ℕ) (out : List ℕ) → n ≤ r → n ≤ q → digits r n out ≡ digits q n out
unfolding digits
digits-rounds zero zero n out h k = refl
digits-rounds zero (suc q) n out h k = ground arith
digits-rounds (suc r) zero n out h k = ground arith
digits-rounds (suc r) (suc q) n out h k =
    ground (arith, digits-rounds r q (n / 10) ((48 + n % 10) ∷ out))

decimal-digits : (m : ℕ) → 0 < m → decimal m ≡ digits (m / 10) (m / 10) ((48 + m % 10) ∷ [])
unfolding decimal digits
decimal-digits zero h = absurd (omega arith)
decimal-digits (suc p) h =
    let out = (48 + suc p % 10) ∷ [] in
    ground (arith, digits-rounds p (suc p / 10) (suc p / 10) out (omega arith) (omega arith))

-- One more digit behind a number.
pub decimal-shift :
    (n d m : ℕ) → 0 < n → d < 10 → m ≡ n * 10 + d → decimal m ≡ decimal n ++ (48 + d) ∷ []
unfolding decimal
decimal-shift n d m h k e =
    let q : m / 10 ≡ n = omega arith in
    let r : m % 10 ≡ d = omega arith in
    let out = (48 + d) ∷ [] in
    decimal-digits m (omega arith) ∙ rw (q, r) ground (arith, digits-append n n [] out)
