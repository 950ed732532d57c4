-- ===== src/Benchmark/Report.antt =====
-- Reporting the times of a benchmark client: `process_ops_sec` and `data_processing` of
-- src/benchmarking/benchmark.c. Times are in microseconds; the rate of operations, a `double` there, is
-- a fraction here. A file is what is written to it.
use rdma_kv_store.Base.{
  ℕ, zero, suc, ◌-◌, ◌/◌, Bool, true, false, Option, none, some, List, [], ◌∷◌, ◌++◌, ◌==◌, leb,
  ◌||◌, if◌then◌else◌, length, take, drop, codes, get_elem?, ℤ, pos, negsuc, neg, decimal,
}
use rdma_kv_store.Machine.{
  null_pointer, out_of_bounds, division_by_zero, uninitialised, done, fault, exited, Cmd, ◌>>=◌,
  ◌>>◌, pure, require,
}
use rdma_kv_store.Common.{ConnectionType}
use rdma_kv_store.Common.CString.{strncmp_eq}
use rdma_kv_store.Common.Names.{connection_type_to_str}
use rdma_kv_store.Benchmark.Instance.{Stamp, null_stamp, unset, at, Operation}

-- The global variables of the benchmark. The numbers are not negative.
pub record Config : Type 0 where
  pub connection_type : ConnectionType
  pub num_ops : ℕ
  pub override : Bool
  pub clients : ℕ
  pub save : Bool
  pub blocking : Bool

-- A line of the file: the start, the end, and the latency.
pub record Row : Type 0 where
  pub start : ℕ
  pub end_ : ℕ
  pub latency : ℤ

-- `ops / usec` operations per microsecond, or 0.
pub data Rate : Type 0 where
  no_rate : Rate
  rate : ℕ → ℕ → Rate

-- What is printed on one client, and the file with its rows, if one is written.
pub record Report : Type 0 where
  pub client_number : ℕ
  pub count : ℕ
  pub ops_sec : Rate
  pub file : Option (List ℕ × List Row)

-- `end - start`
abbrev pub minus : ℕ → ℕ → ℤ
minus end_ start = if leb start end_ then pos (end_ - start) else neg (start - end_)

-- A use of what a `struct timeval *` points to.
abbrev pub read_stamp : {S : Type 0} → Stamp → Cmd S ℕ
read_stamp null_stamp s = fault null_pointer
read_stamp unset s = fault uninitialised
read_stamp (at t) s = done t s

abbrev pub is_null : Stamp → Bool
is_null null_stamp = true
is_null unset = false
is_null (at t) = false

abbrev pub rate_of : ℕ → ℤ → Rate
rate_of n (pos zero) = no_rate
rate_of n (pos (suc usec)) = rate n (suc usec)
rate_of n (negsuc usec) = no_rate

unfoldable pub process_ops_sec : {S : Type 0} → Stamp → Stamp → ℕ → Cmd S Rate
process_ops_sec start end_ n = do
  b ← read_stamp end_
  a ← read_stamp start
  pure (rate_of n (minus b a))

-- "%s_%d_client_%d_%d.csv" behind the directory
unfoldable pub file_text : Config → ℕ → ℕ → List ℕ
file_text g client_number share =
    (if g.blocking
      then codes "./benchmarking/data/blocking/"
      else codes "./benchmarking/data/non_blocking/")
    ++ (connection_type_to_str g.connection_type
        ++ (codes "_"
            ++ (decimal g.clients
                ++ (codes "_client_"
                    ++ (decimal client_number ++ (codes "_" ++ (decimal share ++ codes ".csv")))))))

-- The name in its 255 bytes.
unfoldable pub file_name : Config → ℕ → ℕ → List ℕ
unfolding file_text
file_name g client_number share = take 254 (file_text g client_number share)

-- The file is opened: a name that does not end in ".csv", and a file that cannot be opened, end the
-- process.
unfoldable pub open_file : {S : Type 0} → Bool → List ℕ → Cmd S (Unit {0})
open_file opens name = do
  let suffix = drop (length name - 4) name
  same ← require out_of_bounds (strncmp_eq 4 (codes ".csv" ++ 0 ∷ []) (suffix ++ 0 ∷ []))
  if same then pure tt else (λ s. exited 1 s)
  if opens then pure tt else (λ s. exited 1 s)

-- `while (count < num_ops / clients) { ... }`: the rows, and the operation that is `last` in the end.
module _ {S : Type 0} where
  unfoldable pub collect : ℕ → List Operation → Operation → List Row → Cmd S (List Row × Operation)
  collect zero ops last rows s = done (rows, last) s
  collect (suc n) [] last rows s = fault out_of_bounds
  collect (suc n) (op ∷ ops) last rows s =
      (if is_null op.start || is_null op.end_ then pure (rows, last) else (do
        b ← read_stamp op.end_
        a ← read_stamp op.start
        let row : Row = record { start = a; end_ = b; latency = minus b a }
        collect n ops op (rows ++ row ∷ [])))
        s

-- `num_ops / clients`
abbrev pub share_of : {S : Type 0} → Config → Cmd S ℕ
share_of g s = if g.clients == 0 then fault division_by_zero else done (g.num_ops / g.clients) s

unfoldable pub data_processing : Config → Bool → List Operation → ℕ → Cmd (List Report) (Unit {0})
unfolding file_name open_file collect process_ops_sec
data_processing g opens ops client_number = do
  first ← require out_of_bounds (get_elem? ops 0)
  share ← share_of g
  if g.save then open_file opens (file_name g client_number share) else pure tt
  (rows, last) ← collect share ops first []
  ops_sec ← process_ops_sec first.start last.end_ (length rows)
  λ s. done tt (
      record {
        client_number = client_number;
        count = length rows;
        ops_sec = ops_sec;
        file = if g.save then some (file_name g client_number share, rows) else none;
      }
      ∷ s)
