-- ===== src/Setup/Startup.antt =====
-- The command line of the server, `server_init` of src/server/server_utils.c, and `main` of
-- src/server/kvstore.c, which takes clients in.
use rdma_kv_store.Base.{
  ltb, ℕ, zero, suc, ◌*◌, Bool, true, false, Option, none, some, List, [], ◌∷◌, ◌==◌, if◌then◌else◌,
  ℤ, pos, is_neg,
}
use rdma_kv_store.Machine.{null_pointer, int_overflow, Run, done, fault}
use rdma_kv_store.Common.{ConnectionType, tcp}
use rdma_kv_store.Common.Options.{Parsed, type_of_arg}
use rdma_kv_store.Hash.State.{Store}
use rdma_kv_store.Hash.Table.{InitAllocs, init_hashtable}
use rdma_kv_store.Server.{request_backlog, ht_capacity}
use rdma_kv_store.Verbs.{
  calloc, Prog, ◌>>=◌, ◌>>◌, pure, exit_with, undefined, obtain, gets, modify, within,
}
use rdma_kv_store.Setup.{sizeof_request, sizeof_response, Setup}
use rdma_kv_store.Setup.Listen.{start_server}
use rdma_kv_store.Setup.Accept.{accept_new_connection}

-- PORT of src/common.h
abbrev pub default_port : ℕ
default_port = 35304

-- What the options set.
pub record Options : Type 0 where
  pub type : ConnectionType
  pub port : ℕ
  pub blocking : Bool
  pub verbose : Bool
  pub debug : Bool

abbrev pub default_options : Options
default_options = record {
  type = tcp;
  port = default_port;
  blocking = false;
  verbose = false;
  debug = false;
}

-- How an option ends: the next one, or the process.
pub data Opted (A : Type 0) : Type 0 where
  goes_on : A → Opted A
  ends : ℕ → Opted A
  crashes : Opted A

-- `connInfo->type`, and what follows where the argument names no type: `case 'b'`.
abbrev pub choose_type : Options → Option ConnectionType → Options
choose_type o none = record o { blocking = true }
choose_type o (some t) = record o { type = t }

-- `atoi`, and `strncmp`, of an argument.
abbrev pub with_port : (List ℕ → ℕ) → Options → Option (List ℕ) → Opted Options
with_port atoi o none = crashes
with_port atoi o (some arg) = goes_on (record o { port = atoi arg })

abbrev pub with_type : Options → Option (List ℕ) → Opted Options
with_type o none = crashes
with_type o (some arg) = goes_on (choose_type o (type_of_arg arg))

-- One turn of the option loop: 'v', 'd', 'p', 'r', 'b', and everything else.
unfoldable pub server_option : (List ℕ → ℕ) → Options → Parsed → Opted Options
server_option atoi o p =
    if p.opt == 118
    then goes_on (record o { verbose = true })
    else if p.opt == 100
    then goes_on (record o { debug = true })
    else if p.opt == 112
    then with_port atoi o p.arg
    else if p.opt == 114
    then with_type o p.arg
    else if p.opt == 98
    then goes_on (record o { blocking = true })
    else ends 0

unfoldable pub server_options : (List ℕ → ℕ) → Options → List Parsed → Opted Options
server_options atoi o [] = goes_on o
server_options atoi o (p ∷ ps) = elim (server_option atoi o p) [
  | goes_on o' ↦ server_options atoi o' ps
  | ends n ↦ ends n
  | crashes ↦ crashes
]

-- The state of `main`: the worker threads are the numbers of their clients, the newest first.
pub record Main : Type 0 where
  pub options : Options
  pub setup : Setup
  pub store : Store
  pub client_nr : ℕ
  pub threads : List ℕ

module _ {R : Type 0} where
  abbrev pub on_setup : {A : Type 0} → Prog Setup R A → Prog Main R A
  on_setup = within (λ s. s.setup) (λ c s. record s { setup = c })

  unfoldable pub server_init : (List ℕ → ℕ) → List Parsed → Prog Main R (Unit {0})
  unfolding server_options
  server_init atoi args = elim (server_options atoi default_options args) [
    | goes_on o ↦ (do modify λ s. record s { options = o }; on_setup (start_server o.type))
    | ends n ↦ exit_with n
    | crashes ↦ undefined null_pointer
  ]

  -- `init_hashtable(HT_CAPACITY)`: -1, -2 and -3 end the process.
  abbrev pub made_table : Run Store ℤ → Prog Main R (Unit {0})
  made_table (done (pos n) st) = modify λ s. record s { store = st }
  made_table (done _ st) = exit_with 1
  made_table (fault f) = undefined f
  -- `init_hashtable` does not wait, exit or loop.
  made_table _ = exit_with 1

  -- `client_nr++` on an `int`
  unfoldable pub next_client_nr : Prog Main R (Unit {0})
  next_client_nr = do
    n ← gets λ s. s.client_nr
    if ltb (suc n) 2147483648
        then (modify λ s. record s { client_nr = suc s.client_nr })
        else undefined int_overflow

  -- One turn of the loop of `main`: a client that is not taken in still uses up its number.
  unfoldable pub take_client : Prog Main R (Unit {0})
  unfolding next_client_nr
  take_client = do
    request ← obtain (calloc (request_backlog * sizeof_request))
    response ← obtain (calloc sizeof_response)
    s ← gets λ s. s
    modify λ s. record s {
      setup = record s.setup { request = request; response = response; request_count = 0 };
    }
    next_client_nr
    ret ← on_setup (accept_new_connection s.options.type)
    if is_neg ret then pure tt else modify λ t. record t { threads = s.client_nr ∷ t.threads }

  -- A number of turns of the loop, which does not end by itself.
  unfoldable pub take_clients : ℕ → Prog Main R (Unit {0})
  unfolding take_client
  take_clients zero = pure tt
  take_clients (suc n) = take_client >> take_clients n

  -- `main`, for what the allocations of the table give.
  unfoldable pub server_main : (List ℕ → ℕ) → List Parsed → InitAllocs → ℕ → Prog Main R (Unit {0})
  unfolding server_init take_clients
  server_main atoi args allocs rounds = do
    server_init atoi args
    s ← gets λ s. s
    made_table (init_hashtable ht_capacity allocs s.store)
    take_clients rounds
