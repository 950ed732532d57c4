-- ===== src/Benchmark/Main.antt =====
-- The command line of the benchmark and its threads: `main` of src/benchmarking/benchmark.c.
use rdma_kv_store.Base.{
  ℕ, suc, ◌%◌, Bool, true, false, Option, none, some, List, [], ◌∷◌, ◌==◌, if◌then◌else◌,
}
use rdma_kv_store.Machine.{null_pointer, done, exited, Cmd, ◌>>=◌, ◌>>◌, pure, require}
use rdma_kv_store.Common.{ConnectionType, tcp}
use rdma_kv_store.Common.Options.{Parsed, type_of_arg}
use rdma_kv_store.Setup.Startup.{default_port}
use rdma_kv_store.Benchmark.Instance.{Outcome, at}
use rdma_kv_store.Benchmark.Report.{
  Config, Report, Rate, share_of, process_ops_sec, data_processing,
}

-- What the options set.
pub record Flags : Type 0 where
  pub config : Config
  pub port : ℕ
  pub verbose : Bool
  pub debug : Bool

-- The initial values, and those of the global variables.
abbrev pub default_flags : Flags
default_flags = record {
  config = record {
    connection_type = tcp;
    num_ops = 10000000;
    override = false;
    clients = 1;
    save = true;
    blocking = false;
  };
  port = 0;
  verbose = false;
  debug = false;
}

abbrev pub change : (Config → Config) → Cmd Flags (Unit {0})
change f s = done tt (record s { config = f s.config })

abbrev pub chosen : Option ConnectionType → Config → Config
chosen none g = g
chosen (some t) g = record g { connection_type = t }

-- `strtol` of an argument, and `get_addr` of one: 0, or the status that `main` ends with, and the port
-- of the address that it stores.
pub record Library : Type 0 where
  pub strtol : List ℕ → ℕ
  pub get_addr : List ℕ → ℕ
  pub addr_port : List ℕ → ℕ

-- One turn of the option loop: 'a', 'p', 'n', 'r', 'v', 'd', 'o', 's', 'b', and everything else.
unfoldable pub benchmark_option : Library → Parsed → Cmd Flags (Unit {0})
benchmark_option lib p =
    let number = λ (put : ℕ → Config → Config).
      (require null_pointer p.arg >>= λ arg. change (put (lib.strtol arg))) in
    if p.opt == 97
    then (do
      arg ← require null_pointer p.arg
      λ s.
          (if lib.get_addr arg == 0
            then done tt (record s { port = lib.addr_port arg })
            else exited (lib.get_addr arg) s))
    else if p.opt == 112
    then (do
      arg ← require null_pointer p.arg
      λ s. done tt (record s { port = lib.strtol arg % 65536 }))
    else if p.opt == 110
    then number (λ n g. record g { clients = n })
    else if p.opt == 114
    then (do arg ← require null_pointer p.arg; change (chosen (type_of_arg arg)))
    else if p.opt == 118
    then (λ s. done tt (record s { verbose = true }))
    else if p.opt == 100
    then (λ s. done tt (record s { debug = true }))
    else if p.opt == 111
    then number (λ n g. record g { num_ops = n })
    else if p.opt == 115
    then change (λ g. record g { save = false })
    else if p.opt == 98
    then change (λ g. record g { blocking = true })
    else (λ s. exited 1 s)

-- The options in order, and the default port where none was given.
unfoldable pub benchmark_options : Library → List Parsed → Cmd Flags (Unit {0})
unfolding benchmark_option
benchmark_options lib [] =
    λ s. done tt (if s.port == 0 then record s { port = default_port } else s)
benchmark_options lib (p ∷ ps) = do benchmark_option lib p; benchmark_options lib ps

-- `struct thread_args`
pub record ThreadArgs : Type 0 where
  pub conn_t : ConnectionType
  pub num_ops : ℕ
  pub instance_nr : ℕ
  pub blocking : Bool

-- What `main` writes for the thread `i`. All threads are given the same variable, and a thread sees what
-- is there when it reads it.
unfoldable pub thread_args : {S : Type 0} → Config → ℕ → Cmd S ThreadArgs
thread_args g i = do
  share ← share_of g
  pure (record {
    conn_t = g.connection_type;
    num_ops = share;
    instance_nr = if g.override then 1 else i;
    blocking = g.blocking;
  })

-- The threads are joined in order, and those that have operations are reported on; `opens` tells which
-- files can be opened.
unfoldable pub join_all : Config → (ℕ → Bool) → ℕ → List Outcome → Cmd (List Report) (Unit {0})
join_all g opens i [] = pure tt
join_all g opens i (none ∷ threads) = join_all g opens (suc i) threads
join_all g opens i (some ops ∷ threads) = do
  data_processing g (opens i) ops i
  join_all g opens (suc i) threads

-- From the first start to the end of the last thread: the reports, and the total rate, of all operations
-- that were asked for.
unfoldable pub report_all : Config → (ℕ → Bool) → ℕ → ℕ → List Outcome → Cmd (List Report) Rate
unfolding join_all
report_all g opens start end_ threads = do
  join_all g opens 0 threads
  process_ops_sec (at start) (at end_) g.num_ops
