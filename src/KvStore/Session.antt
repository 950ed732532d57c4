-- ===== src/KvStore/Session.antt =====
-- Requests one after another: what a GET answers after a SET or a DEL.
use rdma_kv_store.Base.{
  ℕ, ◌+◌, ◌≤◌, ◌<◌, ◌≡◌, ◌∙◌, ap, Bool, true, false, List, [], ◌∷◌, ◌++◌, none, some, arith, length,
  take, drop, get_or, set, take-append, length-take, pos, get_or-set, get_or-set_self,
}
use mathlib.Core.Path.{ap₂}
use rdma_kv_store.Machine.{Cmd, done, ◌>>=◌, Returns, returns, Returns-bind, Returns-mono}
use rdma_kv_store.Common.{Request, Response, ok, msg_size}
use rdma_kv_store.Common.CString.{starts_with}
use rdma_kv_store.Hash.State.{unlocked, writer, Store}
use rdma_kv_store.Hash.Function.{bucket_of, bucket_of-lt}
use rdma_kv_store.Hash.Chain.{Cell, lookup}
use rdma_kv_store.Hash.Spec.{
  erase, remove_spec, remove_spec-erase, erase-split, length-erase, lookup-append,
}
use rdma_kv_store.Hash.Model.{Chains, chain, Models, IsEnough}
use rdma_kv_store.Hash.Insert.{Allocates}
use rdma_kv_store.KvStore.Handlers.{
  SetAllocs, key_error_response, set_request, get_request, del_request,
}
use rdma_kv_store.KvStore.Get.{IsRequest, get_spec, read_found, get_request-Models}
use rdma_kv_store.KvStore.Set.{ok_response, AllocatesValue}
use rdma_kv_store.KvStore.Del.{del_spec, del_request-Models}
use rdma_kv_store.KvStore.Stored.{IsFree, Stored, set_request-Stored}

-- The response to a GET of a value of `n` bytes of `msg`.
abbrev pub value_response : List ℕ → ℕ → Response → Response
value_response msg n response = record {
  code = ok;
  msg = take n msg ++ drop n response.msg;
  msg_len = n;
}

pub read_stored :
    (c : Cell) (msg buf : List ℕ) (n : ℕ) (response : Response)
    → c.rwlock ≡ unlocked
    → c.value ≡ some (take n msg ++ drop n buf)
    → c.value_size ≡ n
    → n ≤ length msg
    → read_found (some c) response ≡ value_response msg n response
read_stored c msg buf n response free value size fits =
    let front = take-append (take n msg) (drop n buf) n (length-take n msg fits) in ground arith

-- A SET and then a GET, as two turns of the worker.
abbrev pub set_then_get : ℕ → SetAllocs → Request → Request → Response → Cmd Store Response
set_then_get fuel a request question response = do
  _ ← set_request fuel a request response
  get_request fuel question response

module _ (n : ℕ) (ls : List Bool) (cs : Chains) (s : Store) (fuel : ℕ) (a : SetAllocs)
    (request question : Request) (t u : List ℕ) (response : Response) (m : Models n ls cs s)
    (good : IsRequest request t) (asked : IsRequest question u)
    (enough : (i : ℕ) → length (chain cs i) + 1 < fuel)
    (idle : get_or ls (bucket_of t n) false ≡ false) (v : AllocatesValue a)
    (al : Allocates a.entry s (length t)) (free : IsFree (lookup t (chain cs (bucket_of t n))))
    (wide : length response.msg ≡ msg_size) where
  -- The answer to the GET, from the contract of the SET.
  after_set :
      (answer : Response)
      → ((cs' : Chains)
          → Stored n cs t request cs'
          → get_spec u (chain cs' (bucket_of u n)) response ≡ answer)
      → Returns (λ r s'. r ≡ answer) (set_then_get fuel a request question response s)
  after_set answer reads =
      Returns-bind
        (set_request-Stored n ls cs s fuel a request t response m good
          (λ i. omega (arith, enough i)) idle v al free)
        λ r s1 (_, (cs', m1, st)).
          Returns-mono
            (get_request-Models n ls cs' s1 fuel question u response m1 asked
              (λ i. omega (arith, enough i, st.longer i)) wide)
            λ r' s2 (e, m2). e ∙ reads cs' st

  -- A GET of a key that was just SET answers OK with exactly the msg_len bytes of the message, in
  -- front of what the response held. This is over a well-formed table whose mutex for the bucket
  -- is free, with fuel for one entry more, memory at hand, an entry of the key, if there is one,
  -- that nobody holds, keys of length key_len, and a message that fits its 256 bytes.
  pub get-set :
      t ≡ u
      → Returns
          (λ r s'. r ≡ value_response request.msg request.msg_len response)
          (set_then_get fuel a request question response s)
  get-set same = after_set _ λ cs' st. rw (← same) (
      unfold get_spec in
      (ap (λ o. read_found o response) st.found
        ∙ read_stored st.cell request.msg st.buf request.msg_len response st.free st.value
            st.value_size (rw good.msg_width good.msg_fits)))

  -- A GET of a key that is no prefix of the key of a SET just before, and that it is no prefix of,
  -- answers as before the SET. This is over a well-formed table whose mutex for the bucket of the
  -- SET is free, with fuel for one entry more, memory at hand, an entry of the key, if there is
  -- one, that nobody holds, keys of length key_len, and a message that fits its 256 bytes.
  pub get-set_other :
      starts_with t u ≡ false
      → starts_with u t ≡ false
      → Returns
          (λ r s'. r ≡ get_spec u (chain cs (bucket_of u n)) response)
          (set_then_get fuel a request question response s)
  get-set_other h k = after_set _ λ cs' st. unfold get_spec in rw (st.other u h k)

-- A DEL and then a GET.
abbrev pub del_then_get : ℕ → Request → Request → Response → Cmd Store (Response × Response)
del_then_get fuel request question response = do
  removed ← del_request fuel request response
  answer ← get_request fuel question response
  done (removed, answer)

-- Over a well-formed table whose mutex for the key's bucket is free, with more fuel than every
-- chain is long, where exactly one entry of the bucket matches a key and nobody holds it, DEL
-- answers OK, and a GET of the key then answers KEY_ERROR.
pub get-del :
    (n : ℕ) (ls : List Bool) (cs : Chains) (s : Store) (fuel : ℕ) (request question : Request)
    (t : List ℕ) (response : Response) (before after : List Cell) (c : Cell)
    → Models n ls cs s
    → IsRequest request t
    → IsRequest question t
    → IsEnough fuel cs
    → get_or ls (bucket_of t n) false ≡ false
    → chain cs (bucket_of t n) ≡ before ++ c ∷ after
    → lookup t before ≡ none
    → starts_with c.text t ≡ true
    → lookup t after ≡ none
    → c.rwlock ≡ unlocked
    → length response.msg ≡ msg_size
    → Returns
        (λ r s'. r ≡ (ok_response response, key_error_response response))
        (del_then_get fuel request question response s)
get-del n ls cs s fuel request question t response before after c m good asked enough idle whole
      missed hit gone free wide =
    let b = bucket_of t n in
    let xs = chain cs b in
    let inside : b < length cs = rw m.width (bucket_of-lt t n m.roomy) in
    let found : lookup t xs ≡ some c =
      rw (whole, lookup-append t before (c ∷ after) missed) (unfold lookup in rw hit) in
    let spec : remove_spec t xs ≡ (pos 0, erase t xs) =
      remove_spec-erase t xs c writer found (rw free) in
    let left : erase t xs ≡ before ++ after =
      ap (erase t) whole ∙ erase-split t before after c missed hit in
    let cs' = set cs b (before ++ after) in
    let deleted : del_spec t xs response ≡ ok_response response = (unfold del_spec in rw spec) in
    let absent : get_spec t (chain cs' b) response ≡ key_error_response response =
      (unfold get_spec in
        rw (
          get_or-set_self cs b (before ++ after) [] inside,
          lookup-append t before after missed,
          gone,
        )) in
    let short : (i : ℕ) → length (chain cs' i) < fuel = (λ i.
      rw (get_or-set cs b i (before ++ after) [] inside)
        (ground (arith, enough i, length-erase t xs, ap length left))) in
    Returns-bind (del_request-Models n ls cs s fuel request t response m good enough idle)
      λ r s1 (removed, m1).
        Returns-bind
          (get_request-Models n ls cs' s1 fuel question t response (rw left at (rw spec at m1))
            asked short wide)
          λ r' s2 (answer, m3). returns (ap₂ (λ x y. (x, y)) (removed ∙ deleted) (answer ∙ absent))
