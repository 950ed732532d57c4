-- ===== src/Hash/KeyCopy.antt =====
-- The copy of a key that `get_key_entry` of src/server/hash.c makes.
use rdma_kv_store.Base.{
  ℕ, zero, suc, ◌<◌, ◌≡◌, refl, List, [], ◌∷◌, ◌++◌, some, arith, length, take, drop, set,
  get_elem?-get_or, length-append, length-take,
}
use rdma_kv_store.Machine.{done, memcpy-some}
use rdma_kv_store.Common.CString.{cstr, cons_char-cstr}
use rdma_kv_store.Hash.State.{Store}
use rdma_kv_store.Hash.Entries.{copy_key}

length-cstr : (b : List ℕ) {t : List ℕ} → cstr b ≡ some t → length t < length b
length-cstr [] h = unfold cstr in absurd (ground arith)
length-cstr (zero ∷ b) h = unfold cstr in ground arith
length-cstr (suc c ∷ b) h =
    let (r, hr, e) = cons_char-cstr c b _ h in rw e (omega (arith, length-cstr b hr))

-- The copied key: the text, and a NUL behind it.
cstr-copied :
    (b : List ℕ) {t : List ℕ} (x : ℕ)
    → cstr b ≡ some t
    → cstr (set (take (length t) b ++ x ∷ []) (length t) 0) ≡ some t
unfolding cstr
cstr-copied [] x h = absurd (ground arith)
cstr-copied (zero ∷ b) {t} x h = let e : t ≡ [] = cc in rw e refl
cstr-copied (suc c ∷ b) x h =
    let (r, hr, e) = cons_char-cstr c b _ h in rw e (ground (arith, cstr-copied b x hr))

last_of : (xs : List ℕ) (n : ℕ) → length xs ≡ suc n → (x : ℕ) × (drop n xs ≡ x ∷ [])
last_of [] n h = absurd (omega arith)
last_of (x ∷ []) zero h = (x, refl)
last_of (x ∷ y ∷ xs) zero h = absurd (omega arith)
last_of (x ∷ xs) (suc n) h = last_of xs n (omega arith)

-- The key that `get_key_entry` copies is the text that it is given.
pub copy_key-text :
    (s : Store) (key t buf : List ℕ)
    → cstr key ≡ some t
    → length buf ≡ suc (length t)
    → (text : List ℕ) × (copy_key key (length t) buf s ≡ done text s) × (cstr text ≡ some t)
unfolding copy_key
copy_key-text s key t buf h size =
    let (x, e) = last_of buf (length t) size in
    let fits = length-cstr key h in
    let long : length (take (length t) key ++ x ∷ []) ≡ suc (length t) =
      omega (arith, length-append (take (length t) key) (x ∷ []), length-take (length t) key) in
    let copied = take (length t) key ++ x ∷ [] in
    (
      set copied (length t) 0,
      rw (
        memcpy-some buf key (length t) (omega arith) (omega arith),
        e,
        get_elem?-get_or copied (length t) 0 (omega arith),
      ),
      cstr-copied key x h,
    )
