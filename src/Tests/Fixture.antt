-- ===== src/Tests/Fixture.antt =====
-- A table of one bucket, empty and with one entry, and requests for the keys "k", "kk" and "m".
use rdma_kv_store.Base.{
  ℕ, zero, suc, ◌≡◌, ◌≢◌, refl, Bool, true, false, List, [], ◌∷◌, ◌++◌, none, some, arith, ◌==◌,
  if◌then◌else◌, get_or, replicate, codes,
}
use rdma_kv_store.Common.{Request, Response, get, zero_response}
use rdma_kv_store.Common.CString.{cstr}
use rdma_kv_store.Hash.State.{live, null, unlocked, Heap, Store}
use rdma_kv_store.Hash.Function.{bucket_of, bucket_of-lt}
use rdma_kv_store.Hash.Entries.{EntryAllocs}
use rdma_kv_store.Hash.Chain.{Cell, IsCell, item_of, head_or, has, Linked}
use rdma_kv_store.Hash.Model.{Chains, chain, Models, IsEnough}
use rdma_kv_store.Hash.Init.{fresh_store, fresh_store-Models}
use rdma_kv_store.Hash.Insert.{Allocates}
use rdma_kv_store.KvStore.Handlers.{SetAllocs}
use rdma_kv_store.KvStore.Get.{IsRequest}
use rdma_kv_store.KvStore.Set.{AllocatesValue}

abbrev pub key_k : List ℕ
key_k = codes "k" ++ replicate 63 0

abbrev pub key_kk : List ℕ
key_kk = codes "kk" ++ replicate 62 0

abbrev pub key_m : List ℕ
key_m = codes "m" ++ replicate 63 0

pub key_k-cstr : cstr key_k ≡ some (codes "k")
unfolding cstr
key_k-cstr = refl

pub key_kk-cstr : cstr key_kk ≡ some (codes "kk")
unfolding cstr
key_kk-cstr = refl

pub key_m-cstr : cstr key_m ≡ some (codes "m")
unfolding cstr
key_m-cstr = refl

abbrev pub request_of : List ℕ → ℕ → ℕ → Request
request_of key key_len msg_len = record {
  client_id = 0;
  method = get;
  key = key;
  msg = replicate 256 9;
  key_len = key_len;
  msg_len = msg_len;
  connection_close = false;
}

pub good_k : IsRequest (request_of key_k 1 3) (codes "k")
good_k = record { key_text = key_k-cstr; key_len = refl; msg_fits = omega arith; msg_width = refl }

pub good_m : IsRequest (request_of key_m 1 0) (codes "m")
good_m = record { key_text = key_m-cstr; key_len = refl; msg_fits = omega arith; msg_width = refl }

abbrev pub no_items : Heap
no_items p = none

abbrev pub no_chains : Chains
no_chains = [] ∷ []

abbrev pub locks : List Bool
locks = false ∷ []

pub empty_store-Models : Models 1 locks no_chains (fresh_store 1 no_items)
empty_store-Models = fresh_store-Models 1 no_items (omega arith)

pub empty_chain : (i : ℕ) → chain no_chains i ≡ []
empty_chain zero = refl
empty_chain (suc i) = refl

pub no_chains-IsEnough : IsEnough 3 no_chains
no_chains-IsEnough i = rw (empty_chain i) (omega arith)

pub locks_idle : (i : ℕ) → get_or locks i false ≡ false
locks_idle zero = refl
locks_idle (suc i) = refl

-- An entry whose value is three bytes, in a table of its own.
abbrev pub cell_of : List ℕ → List ℕ → Cell
cell_of buffer text = record {
  addr = 16;
  buffer = buffer;
  text = text;
  value = some (replicate 256 5);
  value_size = 3;
  rwlock = unlocked;
}

abbrev pub chains_of : Cell → Chains
chains_of c = (c ∷ []) ∷ []

abbrev pub heap_of : Cell → Heap
heap_of c p = if p == 16 then some (item_of c null null) else none

abbrev pub store_of : Cell → Store
store_of c = record {
  ht = live (record { capacity = 1; items = 16 ∷ []; locks = locks });
  heap = heap_of c;
}

module _ (buffer text : List ℕ) (printed : cstr buffer ≡ some text) where
  pub cell_of-IsCell : IsCell (cell_of buffer text)
  cell_of-IsCell = record {
    ne_null = λ e. absurd (omega arith);
    key_text = printed;
    room = (refl, omega arith);
  }

  pub store_of-Models :
      Models 1 locks (chains_of (cell_of buffer text)) (store_of (cell_of buffer text))
  store_of-Models = record {
    items = 16 ∷ [];
    ht = refl;
    roomy = omega arith;
    items_width = refl;
    locks_width = refl;
    width = refl;
    heads = heads;
    linked = linked;
    apart = apart;
  }
    where
      chains : Chains
      chains = chains_of (cell_of buffer text)

      heads : (i : ℕ) → get_or (16 ∷ []) i null ≡ head_or null (chain chains i)
      heads zero = refl
      heads (suc i) = refl

      linked : (i : ℕ) → Linked (heap_of (cell_of buffer text)) null (chain chains i) null
      linked zero = (cell_of-IsCell, refl, refl, tt)
      linked (suc i) = tt

      apart : (i j a : ℕ) → i ≢ j → has a (chain chains i) ≡ true → has a (chain chains j) ≡ false
      apart zero zero a ne h = absurd (ne refl)
      apart zero (suc j) a ne h = refl
      apart (suc i) j a ne h = absurd (ground arith)

-- The entry of "kk".
abbrev pub cell_kk : Cell
cell_kk = cell_of key_kk (codes "kk")

abbrev pub one_chain : Chains
one_chain = chains_of cell_kk

abbrev pub one_heap : Heap
one_heap = heap_of cell_kk

abbrev pub one_store : Store
one_store = store_of cell_kk

pub cell_kk-IsCell : IsCell cell_kk
cell_kk-IsCell = cell_of-IsCell key_kk (codes "kk") key_kk-cstr

pub one_store-Models : Models 1 locks one_chain one_store
one_store-Models = store_of-Models key_kk (codes "kk") key_kk-cstr

pub chains_of-IsEnough : (c : Cell) → IsEnough 4 (chains_of c)
chains_of-IsEnough c zero = omega arith
chains_of-IsEnough c (suc i) = omega arith

pub one_chain-IsEnough : IsEnough 4 one_chain
one_chain-IsEnough = chains_of-IsEnough cell_kk

-- There is one bucket.
pub bucket_zero : (t : List ℕ) → bucket_of t 1 ≡ 0
bucket_zero t = let h = bucket_of-lt t 1 (omega arith) in omega arith

abbrev pub entry_allocs : EntryAllocs
entry_allocs = record { entry = 32; key_buf = some (replicate 2 7) }

abbrev pub set_allocs : SetAllocs
set_allocs = record { entry = entry_allocs; value_buf = some (replicate 256 0) }

pub set_allocs-AllocatesValue : AllocatesValue set_allocs
set_allocs-AllocatesValue = record { buf = replicate 256 0; value_buf = refl; size = refl }

pub entry_allocs-Allocates : Allocates entry_allocs (fresh_store 1 no_items) 1
entry_allocs-Allocates = record {
  ne_null = λ e. absurd (omega arith);
  unused = refl;
  buf = replicate 2 7;
  key_buf = refl;
  size = refl;
}

abbrev pub answer : Response
answer = zero_response
