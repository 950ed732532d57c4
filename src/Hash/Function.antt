-- ===== src/Hash/Function.antt =====
-- What `hash` and `get_bucket` of src/server/hash.c compute.
use rdma_kv_store.Base.{ℕ, zero, suc, ◌+◌, ◌*◌, ◌%◌, ◌^◌, ◌<◌, ◌≡◌, List, [], ◌∷◌, some, arith}
use rdma_kv_store.Machine.{done}
use rdma_kv_store.Common.CString.{cstr, cons_char-cstr}
use rdma_kv_store.Hash.State.{live, Store, HashTable, table}
use rdma_kv_store.Hash.Table.{char_val, hash_step, hash_loop, hash, get_bucket}

-- The hash of a text over unbounded numbers: `h * 33 + c` for each character.
unfoldable pub djb2 : ℕ → List ℕ → ℕ
djb2 h [] = h
djb2 h (c ∷ s) = djb2 (h * 33 + char_val c) s

step_mod :
    (h v : ℕ)
    → (((h % 2 ^ 32 * 2 ^ 5) % 2 ^ 32 + h % 2 ^ 32) % 2 ^ 32 + v) % 2 ^ 32 ≡ (h * 33 + v) % 2 ^ 32
step_mod h v = omega arith

hash_loop-djb2 :
    (b : List ℕ) {s : List ℕ} (h : ℕ)
    → cstr b ≡ some s
    → hash_loop (h % 2 ^ 32) b ≡ some (djb2 h s % 2 ^ 32)
unfolding hash_loop djb2
hash_loop-djb2 [] h e = unfold cstr in cc
hash_loop-djb2 (zero ∷ b) {s} h e = let t : s ≡ [] = (unfold cstr in cc) in rw t
hash_loop-djb2 (suc c ∷ b) h e =
    let (r, hr, es) = cons_char-cstr c b _ e in
    let step : hash_step (h % 2 ^ 32) (suc c) ≡ (h * 33 + char_val (suc c)) % 2 ^ 32 =
      (unfold hash_step in step_mod h (char_val (suc c))) in
    rw (es, step) (hash_loop-djb2 b (h * 33 + char_val (suc c)) hr)

-- hash of a buffer that holds a text is the 33-fold sum of its characters over unbounded numbers,
-- reduced once modulo 2^32.
pub hash-djb2 : (b s : List ℕ) → cstr b ≡ some s → hash b ≡ some (djb2 5381 s % 2 ^ 32)
unfolding hash
hash-djb2 b s e = hash_loop-djb2 b 5381 e

-- The bucket of a text in a table with `n` buckets.
unfoldable pub bucket_of : List ℕ → ℕ → ℕ
bucket_of s n = djb2 5381 s % 2 ^ 32 % n

pub bucket_of-lt : (s : List ℕ) (n : ℕ) → 0 < n → bucket_of s n < n
unfolding bucket_of
bucket_of-lt s n h = omega arith

pub get_bucket-done :
    (b t : List ℕ) (s : Store) (ht : HashTable)
    → cstr b ≡ some t
    → s.ht ≡ live ht
    → 0 < ht.capacity
    → get_bucket b s ≡ done (bucket_of t ht.capacity) s
unfolding get_bucket table bucket_of
get_bucket-done b t s ht e hs h = rw (hash-djb2 b t e, hs) (ground arith)
