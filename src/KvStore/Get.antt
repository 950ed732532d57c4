-- ===== src/KvStore/Get.antt =====
-- `get_request` of src/server/kvstore.c answers with the value of the first entry that matches.
use rdma_kv_store.Base.{
  ℕ, ◌≤◌, ◌≡◌, refl, ap, inl, inr, Bool, false, List, ◌++◌, Option, none, some, arith, ◌==◌, length,
  take, drop, Option-cases,
}
use rdma_kv_store.Machine.{done, Returns, returns, memcpy-some}
use rdma_kv_store.Common.{Request, Response, ok, msg_size}
use rdma_kv_store.Common.CString.{cstr}
use rdma_kv_store.Hash.State.{
  null, RwLock, unlocked, readers, writer, try_rdlock, rw_unlock, Store, write,
}
use rdma_kv_store.Hash.Table.{search_key}
use rdma_kv_store.Hash.Function.{bucket_of, bucket_of-lt}
use rdma_kv_store.Hash.Chain.{
  Cell, IsRoom, item_of, head_or, last_addr, lookup, lookup-has, load-head,
}
use rdma_kv_store.Hash.Splice.{lookup-IsSplit}
use rdma_kv_store.Hash.Model.{Chains, chain, Models, IsEnough, search_key-Models}
use rdma_kv_store.Hash.Update.{item_at_cell, same_cell-Models}
use rdma_kv_store.KvStore.Handlers.{key_error_response, copy_value, get_request}

-- A request whose key is a text of length `key_len`, and whose message fits its array.
pub record IsRequest (r : Request) (t : List ℕ) : Type 0 where
  pub key_text : cstr r.key ≡ some t
  pub key_len : r.key_len ≡ length t
  pub msg_fits : r.msg_len ≤ msg_size
  pub msg_width : length r.msg ≡ msg_size

-- The response to a GET that finds `c`: its bytes in front of the old contents of the array.
abbrev pub value_bytes : Option (List ℕ) → ℕ → List ℕ → List ℕ
value_bytes none n old = old
value_bytes (some v) n old = take n v ++ drop n old

abbrev pub read_cell : Cell → Option RwLock → Response → Response
read_cell c none response = key_error_response response
read_cell c (some lock) response = record {
  code = ok;
  msg = value_bytes c.value c.value_size response.msg;
  msg_len = c.value_size;
}

abbrev pub read_found : Option Cell → Response → Response
read_found none response = key_error_response response
read_found (some c) response = read_cell c (try_rdlock c.rwlock) response

-- The response to a GET of `t` in the bucket `xs`.
unfoldable pub get_spec : List ℕ → List Cell → Response → Response
get_spec t xs response = read_found (lookup t xs) response

rw_unlock-try_rdlock : (l lock : RwLock) → try_rdlock l ≡ some lock → rw_unlock lock ≡ l
rw_unlock-try_rdlock unlocked lock e = ground arith
rw_unlock-try_rdlock (readers n) lock e = ground arith
rw_unlock-try_rdlock writer lock e = cc

copy_value-bytes :
    (v : Option (List ℕ)) (n : ℕ) (old : List ℕ) (s : Store)
    → IsRoom v n
    → length old ≡ msg_size
    → copy_value v old n s ≡ done (value_bytes v n old) s
unfolding copy_value
copy_value-bytes none n old s room wide = rw room
copy_value-bytes (some v) n old s room wide = rw (memcpy-some old v n (omega arith) (omega arith))

module _ (n : ℕ) (ls : List Bool) (cs : Chains) (s : Store) (fuel : ℕ) (request : Request)
    (t : List ℕ) (response : Response) (m : Models n ls cs s) (ok_request : IsRequest request t)
    (enough : IsEnough fuel cs) (wide : length response.msg ≡ msg_size) where
  get_request-none :
      lookup t (chain cs (bucket_of t n)) ≡ none
      → Returns
          (λ r s'. (r ≡ key_error_response response) × Models n ls cs s')
          (get_request fuel request response s)
  unfolding get_request
  get_request-none e =
      rw
        (
          ap (λ k. search_key fuel request.key k s) ok_request.key_len,
          search_key-Models s m fuel request.key t enough ok_request.key_text,
          e,
        )
        (returns (refl, m))

  get_request-some :
      (c : Cell)
      → lookup t (chain cs (bucket_of t n)) ≡ some c
      → Returns
          (λ r s'. (r ≡ read_cell c (try_rdlock c.rwlock) response) × Models n ls cs s')
          (get_request fuel request response s)
  unfolding get_request
  get_request-some c e =
      let b = bucket_of t n in
      let (before, after, sp) = lookup-IsSplit t (chain cs b) c e in
      let inside = bucket_of-lt t n m.roomy in
      let here = item_at_cell s m b inside before after c sp.whole in
      let good = (lookup-has t s.heap null (chain cs b) null c (m.linked b) e).0 in
      let skip : (c.addr == null) ≡ false = ground (arith, good.ne_null) in
      rw
        (
          ap (λ k. search_key fuel request.key k s) ok_request.key_len,
          search_key-Models s m fuel request.key t enough ok_request.key_text,
          e,
          skip,
          load-head s good.ne_null here,
        )
        (elim (Option-cases (try_rdlock c.rwlock)) [
          | inl held ↦ rw held (returns (refl, m))
          | inr (lock, free) ↦
              let same = rw_unlock-try_rdlock c.rwlock lock free in
              let held : Cell = record c { rwlock = lock } in
              let freed : Cell = record c { rwlock = rw_unlock lock } in
              let item =
                λ (d : Cell). some (item_of d (last_addr null before) (head_or null after)) in
              let s1 : Store = record s { heap = write s.heap c.addr (item held) } in
              rw (free, copy_value-bytes c.value c.value_size response.msg s1 good.room wide)
                (returns (
                  refl,
                  same_cell-Models s m b inside before after c sp.whole
                      (write s1.heap c.addr (item freed)) (λ a o. unfold write in ground arith)
                      (unfold write in ground arith),
                ))
        ])

  -- Over a well-formed table, with more fuel than every chain is long, a GET of a key of length
  -- key_len ends without a fault, answers with the value of the first entry of the bucket that
  -- matches, or with KEY_ERROR where none does or a writer holds it, and leaves the table and its
  -- locks as they were.
  pub get_request-Models :
      Returns
        (λ r s'. (r ≡ get_spec t (chain cs (bucket_of t n)) response) × Models n ls cs s')
        (get_request fuel request response s)
  unfolding get_spec
  get_request-Models = elim (Option-cases (lookup t (chain cs (bucket_of t n)))) [
    | inl e ↦ rw e (get_request-none e)
    | inr (c, e) ↦ rw e (get_request-some c e)
  ]
