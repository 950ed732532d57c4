-- ===== src/Benchmark/FileName.antt =====
-- The names of the benchmark's files (src/benchmarking/benchmark.c).
use rdma_kv_store.Base.{
  ℕ, ◌-◌, ◌≤◌, ◌<◌, ◌≡◌, refl, sym, ◌∙◌, ap, true, false, Bool, List, [], ◌++◌, arith,
  if◌then◌else◌, codes, length, drop, length-append, append_assoc, take_all, drop-append, decimal,
  length-decimal,
}
use rdma_kv_store.Machine.{done}
use rdma_kv_store.Common.{tcp, rc, uc, ud, ConnectionType}
use rdma_kv_store.Common.CString.{strncmp_eq}
use rdma_kv_store.Common.Names.{connection_type_to_str}
use rdma_kv_store.Benchmark.Report.{Config, file_text, file_name, open_file}

length-type : (t : ConnectionType) → length (connection_type_to_str t) ≤ 3
unfolding connection_type_to_str
length-type tcp = omega arith
length-type rc = omega arith
length-type uc = omega arith
length-type ud = omega arith

-- A text that ends in ".csv".
abbrev EndsCsv : List ℕ → Type 0
EndsCsv s = (front : List ℕ) × (s ≡ front ++ codes ".csv")

EndsCsv-append : (xs : List ℕ) {ys : List ℕ} → EndsCsv ys → EndsCsv (xs ++ ys)
EndsCsv-append xs (front, e) =
    (xs ++ front, ap (λ t. xs ++ t) e ∙ sym (append_assoc xs front (codes ".csv")))

EndsCsv-drop : (s : List ℕ) → EndsCsv s → drop (length s - 4) s ≡ codes ".csv"
EndsCsv-drop s (front, e) = rw e (
    drop-append front (codes ".csv") (length (front ++ codes ".csv") - 4)
      (omega (arith, length-append front (codes ".csv"))))

-- The numbers of a configuration, and of a client, in an `int`.
abbrev pub Low : ℕ → Type 0
Low n = n < 2147483648

file_text-EndsCsv : (g : Config) (nr share : ℕ) → EndsCsv (file_text g nr share)
unfolding file_text
file_text-EndsCsv g nr share = EndsCsv-append _ (
    EndsCsv-append (connection_type_to_str g.connection_type) (
      EndsCsv-append (codes "_") (
        EndsCsv-append (decimal g.clients) (
          EndsCsv-append (codes "_client_") (
            EndsCsv-append (decimal nr)
              (EndsCsv-append (codes "_") (EndsCsv-append (decimal share) ([], refl))))))))

length-folder :
    (b : Bool)
    → length (
        if b
        then codes "./benchmarking/data/blocking/"
        else codes "./benchmarking/data/non_blocking/")
      ≤ 33
length-folder true = omega arith
length-folder false = omega arith

length-file_text :
    (g : Config) (nr share : ℕ)
    → Low g.clients
    → Low nr
    → Low share
    → length (file_text g nr share) ≤ 254
unfolding file_text
length-file_text g nr share h k l =
    let last = decimal share ++ codes ".csv" in
    let middle = decimal nr ++ (codes "_" ++ last) in
    let late = decimal g.clients ++ (codes "_client_" ++ middle) in
    let kind = connection_type_to_str g.connection_type ++ (codes "_" ++ late) in
    omega (
      arith,
      length-append
          (if g.blocking
            then codes "./benchmarking/data/blocking/"
            else codes "./benchmarking/data/non_blocking/")
          kind,
      length-folder g.blocking,
      length-append (connection_type_to_str g.connection_type) (codes "_" ++ late),
      length-type g.connection_type,
      length-append (codes "_") late,
      length-append (decimal g.clients) (codes "_client_" ++ middle),
      length-decimal 9 g.clients (omega arith),
      length-append (codes "_client_") middle,
      length-append (decimal nr) (codes "_" ++ last),
      length-decimal 9 nr (omega arith),
      length-append (codes "_") last,
      length-append (decimal share) (codes ".csv"),
      length-decimal 9 share (omega arith),
    )

-- The name fits, and the check of its ending passes.
pub open_file-done :
    {S : Type 0} (g : Config) (nr share : ℕ) (s : S)
    → Low g.clients
    → Low nr
    → Low share
    → open_file true (file_name g nr share) s ≡ done tt s
unfolding open_file file_name strncmp_eq
open_file-done g nr share s h k l =
    rw
      (
        take_all 254 (file_text g nr share) (length-file_text g nr share h k l),
        EndsCsv-drop (file_text g nr share) (file_text-EndsCsv g nr share),
      )
      refl
