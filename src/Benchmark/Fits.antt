-- ===== src/Benchmark/Fits.antt =====
-- The texts that the benchmark prints fit the arrays of a request (src/benchmarking/instance.c), so
-- that its requests are well formed.
use mathlib.Core.Path.{subst}
use rdma_kv_store.Base.{
  sym, ℕ, ◌+◌, ◌≤◌, ◌<◌, ◌≡◌, refl, ◌∙◌, some, List, ◌∷◌, ◌++◌, arith, length, take, drop,
  take-append, ℤ,
}
use rdma_kv_store.Common.{Method, get, set, Request, key_size, msg_size}
use rdma_kv_store.Common.CString.{cstr}
use rdma_kv_store.Common.Printed.{cstr-text, sprintf-some, length-printed}
use rdma_kv_store.KvStore.Get.{IsRequest}
use rdma_kv_store.Benchmark.Requests.{key_text, msg_text, make_get_request, make_set_request}
use rdma_kv_store.Benchmark.Texts.{
  Fits32, no_nul-key_text, no_nul-msg_text, length-key_text, length-msg_text,
}

-- The arrays of a request have their sizes.
pub record IsSized (r : Request) : Type 0 where
  pub key_width : length r.key ≡ key_size
  pub msg_width : length r.msg ≡ msg_size

-- The arrays keep their sizes, the key is the text `t` with its length, and the rest is as stated.
pub record Made (m : Method) (instance_nr : ℕ) (t : List ℕ) (r : Request) : Type 0 where
  pub sized : IsSized r
  pub request : IsRequest r t
  pub method : r.method ≡ m
  pub client_id : r.client_id ≡ instance_nr

-- The message is the text `t` with its length.
pub record Carries (t : List ℕ) (r : Request) : Type 0 where
  pub msg_text : cstr r.msg ≡ some t
  pub msg_len : r.msg_len ≡ length t
  pub msg_bytes : take r.msg_len r.msg ≡ t

module _ (i : ℕ) (c : ℤ) (r : Request) (low : i < 2147483648) (narrow : Fits32 c)
    (sized : IsSized r) where
  key_fits : length (key_text i c) + 1 ≤ length r.key
  key_fits = omega (arith, length-key_text i c low narrow, sized.key_width)

  msg_fits : length (msg_text i c) + 1 ≤ length r.msg
  msg_fits = omega (arith, length-msg_text i c low narrow, sized.msg_width)

  -- make_get_request prints inside the key array, for every instance number below 2 ^ 31, every 32-bit
  -- count, and a request whose arrays have their sizes. The request is then a GET of the key text,
  -- with its length as key_len and the instance number as client_id.
  pub make_get_request-Made :
      (r' : Request) × (make_get_request i c r ≡ some r') × Made get i (key_text i c) r'
  unfolding make_get_request
  make_get_request-Made =
      let t = key_text i c in
      let text = cstr-text t (drop (length t + 1) r.key) (no_nul-key_text i c) in
      let width = length-printed r.key t key_fits ∙ sized.key_width in
      rw (sprintf-some r.key t key_fits, text)
        (
          record r {
            client_id = i;
            method = get;
            key = t ++ 0 ∷ drop (length t + 1) r.key;
            key_len = length t;
            msg_len = 0;
          },
          refl,
          record {
            sized = record { key_width = width; msg_width = sized.msg_width };
            request = record {
              key_text = text;
              key_len = refl;
              msg_fits = omega arith;
              msg_width = sized.msg_width;
            };
            method = refl;
            client_id = refl;
          },
        )

  -- make_set_request prints inside both arrays, for every instance number below 2^31, every 32-bit
  -- count, and a request whose arrays have their sizes. The request is then a SET of the key text,
  -- with its length as key_len and the instance number as client_id, to the message text, with its
  -- length as msg_len.
  pub make_set_request-Made :
      (r' : Request) × (make_set_request i c r ≡ some r')
      × Made set i (key_text i c) r'
      × Carries (msg_text i c) r'
  unfolding make_set_request
  make_set_request-Made =
      let t = key_text i c in
      let m = msg_text i c in
      let text = cstr-text t (drop (length t + 1) r.key) (no_nul-key_text i c) in
      let body = cstr-text m (drop (length m + 1) r.msg) (no_nul-msg_text i c) in
      let key_width = length-printed r.key t key_fits ∙ sized.key_width in
      let msg_width = length-printed r.msg m msg_fits ∙ sized.msg_width in
      rw (sprintf-some r.key t key_fits, text, sprintf-some r.msg m msg_fits, body)
        (
          record r {
            client_id = i;
            method = set;
            key = t ++ 0 ∷ drop (length t + 1) r.key;
            key_len = length t;
            msg = m ++ 0 ∷ drop (length m + 1) r.msg;
            msg_len = length m;
          },
          refl,
          record {
            sized = record { key_width = key_width; msg_width = msg_width };
            request = record {
              key_text = text;
              key_len = refl;
              msg_fits = omega (arith, length-msg_text i c low narrow);
              msg_width = msg_width;
            };
            method = refl;
            client_id = refl;
          },
          record {
            msg_text = body;
            msg_len = refl;
            msg_bytes = take-append m (0 ∷ drop (length m + 1) r.msg) (length m) refl;
          },
        )

some_eq : {a b : Request} → some a ≡ some b → a ≡ b
some_eq e = cc

module _ (i : ℕ) (c : ℤ) (r : Request) (low : i < 2147483648) (narrow : Fits32 c)
    (sized : IsSized r) where
  -- What a request that was made is.
  pub known_set :
      (request : Request)
      → make_set_request i c r ≡ some request
      → Made set i (key_text i c) request × Carries (msg_text i c) request
  known_set request e =
      let (r', e', made, carries) = make_set_request-Made i c r low narrow sized in
      subst (λ x. Made set i (key_text i c) x × Carries (msg_text i c) x) (some_eq (sym e' ∙ e))
        (made, carries)

  pub known_get :
      (request : Request)
      → make_get_request i c r ≡ some request
      → Made get i (key_text i c) request
  known_get request e =
      let (r', e', made) = make_get_request-Made i c r low narrow sized in
      subst (λ x. Made get i (key_text i c) x) (some_eq (sym e' ∙ e)) made
