-- ===== src/Benchmark/Processed.antt =====
-- What is reported on a benchmark client (src/benchmarking/benchmark.c), from what its thread returns.
use mathlib.Core.Path.{ap₂}
use rdma_kv_store.Base.{
  ℕ, zero, suc, ◌/◌, ◌<◌, ◌≡◌, refl, sym, ◌∙◌, ap, true, false, Bool, none, some, List, [], ◌∷◌,
  ◌++◌, map, arith, if◌then◌else◌, length, get_elem?, append_assoc, append_nil,
}
use rdma_kv_store.Benchmark.FileName.{Low, open_file-done}
use rdma_kv_store.Machine.{pure, Cmd, uninitialised, done, fault}
use rdma_kv_store.Benchmark.Instance.{Operation}
use rdma_kv_store.Benchmark.OneOp.{timed}
use rdma_kv_store.Benchmark.Recorded.{Recorded, Stopped}
use rdma_kv_store.Benchmark.Report.{
  Config, Row, Report, minus, rate_of, process_ops_sec, file_name, open_file, collect, share_of,
  data_processing,
}

-- An operation, and its row, from its two times.
abbrev pub timed_op : ℕ × ℕ → Operation
timed_op t = timed t.0 t.1

abbrev pub row_of : ℕ × ℕ → Row
row_of t = record { start = t.0; end_ = t.1; latency = minus t.1 t.0 }

Recorded-map :
    (n : ℕ) (ops : List Operation)
    → Recorded n ops
    → (ts : List (ℕ × ℕ)) × (rest : List Operation) × (map timed_op ts ++ rest ≡ ops)
      × (length ts ≡ n)
Recorded-map zero ops r = ([], ops, refl, refl)
Recorded-map (suc n) [] r = absurd r
Recorded-map (suc n) (o ∷ ops) ((a, b, e), r) =
    let (ts, rest, same, width) = Recorded-map n ops r in
    ((a, b) ∷ ts, rest, ap₂ (λ x xs. x ∷ xs) (sym e) same, omega (arith, width))

-- The last operation.
abbrev pub last_of : ℕ × ℕ → List (ℕ × ℕ) → ℕ × ℕ
last_of t [] = t
last_of t (u ∷ ts) = last_of u ts

module _ {S : Type 0} where
  collect-all :
      (ts : List (ℕ × ℕ)) (rest : List Operation) (t : ℕ × ℕ) (rows : List Row) (s : S)
      → collect (length ts) (map timed_op ts ++ rest) (timed_op t) rows s
        ≡ done (rows ++ map row_of ts, timed_op (last_of t ts)) s
  unfolding collect
  collect-all [] rest t rows s = ap (λ r. done (r, timed_op t) s) (sym (append_nil rows))
  collect-all (u ∷ ts) rest t rows s =
      collect-all ts rest u (rows ++ row_of u ∷ []) s
      ∙ ap (λ r. done (r, timed_op (last_of u ts)) s)
          (append_assoc rows (row_of u ∷ []) (map row_of ts))

  collect-Stopped :
      (k n : ℕ) (ops : List Operation) (last : Operation) (rows : List Row) (s : S)
      → k < n
      → Stopped k ops
      → collect n ops last rows s ≡ fault uninitialised
  unfolding collect
  collect-Stopped k zero ops last rows s h stopped = absurd (omega arith)
  collect-Stopped zero (suc n) [] last rows s h stopped = absurd stopped
  collect-Stopped zero (suc n) (o ∷ ops) last rows s h ((a, e), r) = rw e refl
  collect-Stopped (suc k) (suc n) [] last rows s h stopped = absurd stopped
  collect-Stopped (suc k) (suc n) (o ∷ ops) last rows s h ((a, b, e), stopped) =
      rw e (collect-Stopped k n ops (timed a b) _ s (omega arith) stopped)

Stopped-first :
    (k : ℕ) (ops : List Operation) → Stopped k ops → (o : Operation) × (get_elem? ops 0 ≡ some o)
Stopped-first zero [] h = absurd h
Stopped-first (suc k) [] h = absurd h
Stopped-first zero (o ∷ ops) h = (o, refl)
Stopped-first (suc k) (o ∷ ops) h = (o, refl)

length-map : (ts : List (ℕ × ℕ)) → length (map row_of ts) ≡ length ts
length-map [] = refl
length-map (t ∷ ts) = ap suc (length-map ts)

share_of-done :
    {S : Type 0} (g : Config) (s : S)
    → 0 < g.clients
    → share_of g s ≡ done (g.num_ops / g.clients) s
share_of-done g s h = ground arith

if_done :
    {S : Type 0} (b : Bool) (m : Cmd S (Unit {0})) (s : S)
    → m s ≡ done tt s
    → (if b then m else pure tt) s ≡ done tt s
if_done true m s e = e
if_done false m s e = refl

some_times : (ts : List (ℕ × ℕ)) → 0 < length ts → (t : ℕ × ℕ) × (us : List (ℕ × ℕ)) × (t ∷ us ≡ ts)
some_times [] h = absurd (omega arith)
some_times (t ∷ us) h = (t, us, refl)

module _ (g : Config) (nr : ℕ) (ops : List Operation) (s : List Report)
    (some_clients : 0 < g.clients) (clients_low : Low g.clients) (nr_low : Low nr)
    (share_low : Low (g.num_ops / g.clients)) where
  saving :
      (if g.save then open_file true (file_name g nr (g.num_ops / g.clients)) else pure tt) s
      ≡ done tt s
  saving =
      if_done g.save (open_file true (file_name g nr (g.num_ops / g.clients))) s
        (open_file-done g nr (g.num_ops / g.clients) s clients_low nr_low share_low)

  data_processing-times :
      (t : ℕ × ℕ) (ts : List (ℕ × ℕ)) (rest : List Operation)
      → length (t ∷ ts) ≡ g.num_ops / g.clients
      → data_processing g true (timed_op t ∷ (map timed_op ts ++ rest)) nr s
        ≡ done tt (
            record {
              client_number = nr;
              count = g.num_ops / g.clients;
              ops_sec = rate_of (g.num_ops / g.clients) (minus (last_of t ts).1 t.0);
              file =
                  if g.save
                  then some (file_name g nr (g.num_ops / g.clients), map row_of (t ∷ ts))
                  else none;
            }
            ∷ s)
  unfolding data_processing process_ops_sec
  data_processing-times t ts rest width =
      let all = timed_op t ∷ (map timed_op ts ++ rest) in
      let rows : length (map row_of (t ∷ ts)) ≡ g.num_ops / g.clients =
        omega (arith, length-map ts, width) in
      let run =
        ap (λ n. collect n all (timed_op t) [] s) (sym width) ∙ collect-all (t ∷ ts) rest t [] s in
      rw (share_of-done g s some_clients, saving, run, rows) refl

  -- Where each of a client's operations, of which there is at least one, has a start and an end,
  -- and the file can be opened, data_processing reports their number, the rate from the first
  -- start to the last end, and, if it saves them, a row for each with its latency, in the file
  -- named for the client; the check of the file's name passes. The numbers of clients, of the
  -- client and of operations are below 2^31, and there is a client.
  pub data_processing-Recorded :
      0 < g.num_ops / g.clients
      → Recorded (g.num_ops / g.clients) ops
      → (t : ℕ × ℕ) × (ts : List (ℕ × ℕ)) × (rest : List Operation) × (map timed_op (t ∷ ts) ++ rest
          ≡ ops)
        × (length (t ∷ ts) ≡ g.num_ops / g.clients)
        × (data_processing g true ops nr s
            ≡ done tt (
                record {
                  client_number = nr;
                  count = g.num_ops / g.clients;
                  ops_sec = rate_of (g.num_ops / g.clients) (minus (last_of t ts).1 t.0);
                  file =
                      if g.save
                      then some (file_name g nr (g.num_ops / g.clients), map row_of (t ∷ ts))
                      else none;
                }
                ∷ s))
  data_processing-Recorded some_ops recorded =
      let (us, rest, same, width) = Recorded-map (g.num_ops / g.clients) ops recorded in
      let (t, ts, split) = some_times us (omega (arith, width, some_ops)) in
      let whole = ap (λ x. map timed_op x ++ rest) split ∙ same in
      let all = ap length split ∙ width in
      (
        t,
        ts,
        rest,
        whole,
        all,
        ap (λ x. data_processing g true x nr s) (sym whole) ∙ data_processing-times t ts rest all,
      )

  -- Where an error stopped a client at one of its operations, and the file can be opened,
  -- data_processing uses the end of that operation, which was never filled in. The numbers of
  -- clients, of the client and of operations are below 2^31, and there is a client.
  pub data_processing-Stopped :
      (k : ℕ)
      → k < g.num_ops / g.clients
      → Stopped k ops
      → data_processing g true ops nr s ≡ fault uninitialised
  unfolding data_processing
  data_processing-Stopped k early stopped =
      let (first, front) = Stopped-first k ops stopped in
      rw
        (
          front,
          share_of-done g s some_clients,
          saving,
          collect-Stopped k (g.num_ops / g.clients) ops first [] s early stopped,
        )
        refl
