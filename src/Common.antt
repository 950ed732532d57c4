-- ===== src/Common.antt =====
-- The protocol that client and server share: src/common.h and src/common.c.
-- A `char` array is the list of its bytes; a string literal is its bytes without the final NUL.
pub mod CString
pub mod Names
pub mod Printed
pub mod Options
use rdma_kv_store.Base.{ℕ, Bool, true, false, List, [], ◌∷◌, ◌==◌, if◌then◌else◌, replicate}

-- `enum connection_type`
pub data ConnectionType : Type 0 where
  tcp rc uc ud : ConnectionType

-- `enum method`
pub data Method : Type 0 where
  unk set get del ping dump rst exit setopt : Method

-- `enum response_code`
pub data ResponseCode : Type 0 where
  ok key_error parsing_error store_error setopt_error unk_error : ResponseCode

-- The numbers that C gives to the enumerators.
abbrev pub connection_type_val : ConnectionType → ℕ
connection_type_val tcp = 0
connection_type_val rc = 1
connection_type_val uc = 2
connection_type_val ud = 3

abbrev pub method_val : Method → ℕ
method_val unk = 0
method_val set = 1
method_val get = 2
method_val del = 3
method_val ping = 4
method_val dump = 5
method_val rst = 6
method_val exit = 7
method_val setopt = 8

abbrev pub response_code_val : ResponseCode → ℕ
response_code_val ok = 0
response_code_val key_error = 1
response_code_val parsing_error = 2
response_code_val store_error = 3
response_code_val setopt_error = 4
response_code_val unk_error = 5

abbrev pub key_size : ℕ
key_size = 64

abbrev pub msg_size : ℕ
msg_size = 256

-- `struct request`. The two arrays have their declared sizes.
pub record Request : Type 0 where
  -- an `int`, read as unsigned: a negative one is 2^31 or more
  pub client_id : ℕ
  pub method : Method
  pub key : List ℕ
  pub msg : List ℕ
  pub key_len : ℕ
  pub msg_len : ℕ
  pub connection_close : Bool

-- `struct response`
pub record Response : Type 0 where
  pub code : ResponseCode
  pub msg : List ℕ
  pub msg_len : ℕ

-- `bzero(response, sizeof(struct response))`
abbrev pub zero_response : Response
zero_response = record { code = ok; msg = replicate msg_size 0; msg_len = 0 }

-- `!strcmp(a, b)` on the characters before the NUL
pub strcmp_eq : List ℕ → List ℕ → Bool
strcmp_eq [] [] = true
strcmp_eq [] (b ∷ bs) = false
strcmp_eq (a ∷ as') [] = false
strcmp_eq (a ∷ as') (b ∷ bs) = if a == b then strcmp_eq as' bs else false
