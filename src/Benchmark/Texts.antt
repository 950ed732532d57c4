-- ===== src/Benchmark/Texts.antt =====
-- The texts of the benchmark's requests (src/benchmarking/instance.c): their lengths, and that they
-- tell instances and counts apart.
use rdma_kv_store.Base.{
  ℕ, zero, suc, ◌+◌, ◌*◌, ◌/◌, ◌%◌, ◌≤◌, ◌<◌, ◌≡◌, refl, sym, ap, ◌∙◌, true, List, [], ◌∷◌, ◌++◌,
  arith, codes, append_nil, append_assoc, length, length-append, ℤ, pos, negsuc, decimal, int_text,
  read_int, read_int-int_text, length-decimal, decimal-shift, digits,
}
use rdma_kv_store.Common.CString.{starts_with, starts_with_append}
use rdma_kv_store.Common.Printed.{no_nul, no_nul-append}
use rdma_kv_store.Benchmark.Requests.{key_text, msg_text, read_key}

-- The counts of a 32-bit `int`.
abbrev pub Fits32 : ℤ → Type 0
Fits32 (pos n) = n < 2147483648
Fits32 (negsuc n) = n < 2147483648

no_nul-digits :
    (rounds n : ℕ) (out : List ℕ) → no_nul out ≡ true → no_nul (digits rounds n out) ≡ true
unfolding digits no_nul
no_nul-digits zero n out h = h
no_nul-digits (suc rounds) n out h =
    ground (arith, no_nul-digits rounds (n / 10) ((48 + n % 10) ∷ out))

no_nul-decimal : (n : ℕ) → no_nul (decimal n) ≡ true
unfolding decimal no_nul
no_nul-decimal n = ground (arith, no_nul-digits n n [])

no_nul-int_text : (x : ℤ) → no_nul (int_text x) ≡ true
unfolding int_text no_nul
no_nul-int_text (pos n) = no_nul-decimal n
no_nul-int_text (negsuc n) = no_nul-decimal (suc n)

-- What both texts are: a phrase, the instance, " count " and the count.
abbrev phrase : List ℕ → ℕ → ℤ → List ℕ
phrase intro i c = intro ++ (decimal i ++ (codes " count " ++ int_text c))

no_nul-phrase :
    (intro : List ℕ) (i : ℕ) (c : ℤ) → no_nul intro ≡ true → no_nul (phrase intro i c) ≡ true
no_nul-phrase intro i c h = no_nul-append intro _ h (
    no_nul-append (decimal i) _ (no_nul-decimal i)
      (no_nul-append (codes " count ") (int_text c) (unfold no_nul in refl) (no_nul-int_text c)))

pub no_nul-key_text : (i : ℕ) (c : ℤ) → no_nul (key_text i c) ≡ true
unfolding key_text
no_nul-key_text i c = no_nul-phrase (codes "Key from instance ") i c (unfold no_nul in refl)

pub no_nul-msg_text : (i : ℕ) (c : ℤ) → no_nul (msg_text i c) ≡ true
unfolding msg_text
no_nul-msg_text i c = no_nul-phrase (codes "Message from instance ") i c (unfold no_nul in refl)

length-int_text : (c : ℤ) → Fits32 c → length (int_text c) ≤ 11
unfolding int_text
length-int_text (pos n) h = omega (arith, length-decimal 9 n (omega arith))
length-int_text (negsuc n) h = omega (arith, length-decimal 9 (suc n) (omega arith))

length-phrase :
    (intro : List ℕ) (i : ℕ) (c : ℤ)
    → i < 2147483648
    → Fits32 c
    → length (phrase intro i c) ≤ length intro + 28
length-phrase intro i c h k = omega (
  arith,
  length-append intro (decimal i ++ (codes " count " ++ int_text c)),
  length-append (decimal i) (codes " count " ++ int_text c),
  length-append (codes " count ") (int_text c),
  length-decimal 9 i (omega arith),
  length-int_text c k,
)

pub length-key_text : (i : ℕ) (c : ℤ) → i < 2147483648 → Fits32 c → length (key_text i c) ≤ 46
unfolding key_text
length-key_text i c = length-phrase (codes "Key from instance ") i c

pub length-msg_text : (i : ℕ) (c : ℤ) → i < 2147483648 → Fits32 c → length (msg_text i c) ≤ 50
unfolding msg_text
length-msg_text i c = length-phrase (codes "Message from instance ") i c

-- Reading a key gives back its instance and its count.
pub read_key-key_text : (i : ℕ) (c : ℤ) → read_key (key_text i c) ≡ (pos i, c)
unfolding read_key key_text
read_key-key_text i c =
    let tail = codes " count " ++ int_text c in
    let first : read_int (decimal i ++ tail) ≡ (pos i, tail) =
      (unfold int_text in read_int-int_text (pos i) tail refl) in
    let second : read_int (int_text c) ≡ (c, []) =
      ap read_int (sym (append_nil (int_text c))) ∙ read_int-int_text c [] refl in
    rw first (rw second refl)

pos-injective : (i j : ℕ) → pos i ≡ pos j → i ≡ j
pos-injective i j e = cc

-- The keys of different instances, and those of different counts, are different.
pub key_text-injective : (i j : ℕ) (c d : ℤ) → key_text i c ≡ key_text j d → (i ≡ j) × (c ≡ d)
key_text-injective i j c d e =
    let same = sym (read_key-key_text i c) ∙ ap read_key e ∙ read_key-key_text j d in
    (pos-injective i j (ap (λ p. p.0) same), ap (λ p. p.1) same)

key_text-longer :
    (i : ℕ) (c c' : ℤ) (more : List ℕ)
    → int_text c' ≡ int_text c ++ more
    → key_text i c' ≡ key_text i c ++ more
unfolding key_text
key_text-longer i c c' more e =
    let count = codes " count " in
    let number = decimal i in
    let inner = append_assoc number (count ++ int_text c) more in
    let outer = append_assoc (codes "Key from instance ") (number ++ (count ++ int_text c)) more in
    ap (λ t. codes "Key from instance " ++ (number ++ (count ++ t))) e
    ∙ sym (outer ∙ ap (λ t. codes "Key from instance " ++ t) inner)

-- The key of a count is the front of the key of every count that goes on with one more digit.
pub key_text-prefix :
    (i n d : ℕ)
    → 0 < n
    → d < 10
    → starts_with (key_text i (pos (n * 10 + d))) (key_text i (pos n)) ≡ true
key_text-prefix i n d h k =
    rw
      (key_text-longer i (pos n) (pos (n * 10 + d)) ((48 + d) ∷ [])
        (unfold int_text in decimal-shift n d (n * 10 + d) h k refl))
      (starts_with_append (key_text i (pos n)) ((48 + d) ∷ []))
