-- ===== src/Common/Names.antt =====
-- The conversions between enumerators and their names in src/common.c.
use rdma_kv_store.Base.{
  ℕ, ◌≡◌, refl, sym, ◌∙◌, inl, inr, ◌≢◌, true, List, [], ◌∷◌, arith, ◌==◌, if◌then◌else◌, codes,
  Bool-cases,
}
use rdma_kv_store.Common.{
  ConnectionType, tcp, rc, uc, ud, Method, unk, set, get, del, ping, dump, rst, exit, setopt,
  method_val, connection_type_val, strcmp_eq,
}

-- `method_conversion`, with one row for each enumerator
abbrev pub method_conversion : List (Method × List ℕ)
method_conversion =
    (unk, codes "UNK")
    ∷ (set, codes "SET")
    ∷ (get, codes "GET")
    ∷ (del, codes "DEL")
    ∷ (ping, codes "PING")
    ∷ (dump, codes "DUMP")
    ∷ (rst, codes "RESET")
    ∷ (exit, codes "EXIT")
    ∷ (setopt, codes "SETOPT")
    ∷ []

-- The `for` loop of `method_to_enum` over the rest of the table.
find_method : List ℕ → List (Method × List ℕ) → Method
find_method str [] = unk
find_method str ((val, name) ∷ rows) = if strcmp_eq str name then val else find_method str rows

unfoldable pub method_to_enum : List ℕ → Method
unfolding find_method strcmp_eq
method_to_enum str = find_method str method_conversion

-- The `for` loop of `method_to_str` over the rest of the table.
find_name : Method → List (Method × List ℕ) → List ℕ
find_name code [] = codes "UNK"
find_name code ((val, name) ∷ rows) =
    if method_val val == method_val code then name else find_name code rows

unfoldable pub method_to_str : Method → List ℕ
unfolding find_name
method_to_str code = find_name code method_conversion

abbrev pub connection_type_conversion : List (ConnectionType × List ℕ)
connection_type_conversion =
    (tcp, codes "TCP") ∷ (rc, codes "RC") ∷ (uc, codes "UC") ∷ (ud, codes "UD") ∷ []

find_type : ConnectionType → List (ConnectionType × List ℕ) → List ℕ
find_type type [] = codes "TCP"
find_type type ((val, name) ∷ rows) =
    if connection_type_val val == connection_type_val type then name else find_type type rows

unfoldable pub connection_type_to_str : ConnectionType → List ℕ
unfolding find_type
connection_type_to_str type = find_type type connection_type_conversion

-- `code_msg`: the cases that `RESPONSE_CODES(RESPONSE_TEXT)` expands to
pub code_msg : ℕ → List ℕ
code_msg code =
    if code == 0
    then codes "OK"
    else if code == 1
    then codes "KEY_ERROR"
    else if code == 2
    then codes "PARSING_ERROR"
    else if code == 3
    then codes "STORE_ERROR"
    else if code == 4
    then codes "SETOPT_ERROR"
    else if code == 5
    then codes "UNK_ERROR"
    else codes "Unknown error"

strcmp_eq_sound : (a b : List ℕ) → strcmp_eq a b ≡ true → a ≡ b
unfolding strcmp_eq
strcmp_eq_sound [] [] h = refl
strcmp_eq_sound [] (y ∷ b) h = cc
strcmp_eq_sound (x ∷ a) [] h = cc
strcmp_eq_sound (x ∷ a) (y ∷ b) h = ground (arith, strcmp_eq_sound a b)

-- Converting a method to its name and back gives the method, for every method.
pub to_enum-to_str : (m : Method) → method_to_enum (method_to_str m) ≡ m
unfolding method_to_enum method_to_str
to_enum-to_str unk = refl
to_enum-to_str _ = refl

abbrev Named : List (Method × List ℕ) → Type 0
Named [] = Unit
Named ((val, name) ∷ rows) = (method_to_str val ≡ name) × Named rows

method_conversion-Named : Named method_conversion
unfolding method_to_str
method_conversion-Named = (refl, (refl, (refl, (refl, (refl, (refl, (refl, (refl, (refl, tt)))))))))

find_method_sound :
    (str : List ℕ) (rows : List (Method × List ℕ))
    → Named rows
    → find_method str rows ≢ unk
    → method_to_str (find_method str rows) ≡ str
unfolding find_method
find_method_sound str [] named h = absurd (h refl)
find_method_sound str ((val, name) ∷ rows) named h = elim (Bool-cases (strcmp_eq str name)) [
  | inl e ↦ rw e (named.0 ∙ sym (strcmp_eq_sound str name e))
  | inr e ↦ rw e (find_method_sound str rows named.1 (rw e at h))
]

-- A text that is read as a method other than UNK is that method's name.
pub to_str-to_enum :
    (str : List ℕ) → method_to_enum str ≢ unk → method_to_str (method_to_enum str) ≡ str
unfolding method_to_enum
to_str-to_enum str h = find_method_sound str method_conversion method_conversion-Named h

-- Different connection types have different names.
pub connection_type_to_str_injective :
    (a b : ConnectionType) → connection_type_to_str a ≡ connection_type_to_str b → a ≡ b
unfolding connection_type_to_str
connection_type_to_str_injective tcp tcp h = refl
connection_type_to_str_injective tcp _ h = ground arith
connection_type_to_str_injective rc rc h = refl
connection_type_to_str_injective rc _ h = ground arith
connection_type_to_str_injective uc uc h = refl
connection_type_to_str_injective uc _ h = ground arith
connection_type_to_str_injective ud ud h = refl
connection_type_to_str_injective ud _ h = ground arith
