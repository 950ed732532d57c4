-- ===== src/Common/Options.antt =====
-- Command-line options as `getopt_long` gives them, and the argument of `-r`, which the server
-- (src/server/server_utils.c) and the benchmark (src/benchmarking/benchmark.c) read alike.
use rdma_kv_store.Base.{
  ℕ, Bool, false, Option, none, some, List, [], ◌∷◌, ◌++◌, codes, if◌then◌else◌,
}
use rdma_kv_store.Common.{ConnectionType, rc, uc, ud}
use rdma_kv_store.Common.CString.{strncmp_eq}

-- What one call of `getopt_long` gives: the character, and `optarg`, without its NUL.
pub record Parsed : Type 0 where
  pub opt : ℕ
  pub arg : Option (List ℕ)

-- `strncmp(arg, name, 2) == 0`
abbrev is_type : List ℕ → List ℕ → Bool
is_type arg name = elim (strncmp_eq 2 (arg ++ 0 ∷ []) (name ++ 0 ∷ [])) [
  | none ↦ false
  | some b ↦ b
]

-- The connection type that an argument names, if it names one.
unfoldable pub type_of_arg : List ℕ → Option ConnectionType
type_of_arg arg =
    if is_type arg (codes "rc")
    then some rc
    else if is_type arg (codes "uc")
    then some uc
    else if is_type arg (codes "ud")
    then some ud
    else none
