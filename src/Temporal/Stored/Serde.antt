-- ===== src/Temporal/Stored/Serde.antt =====
-- What the visitors of temporal.rs use of serde: elements, typed reading, and the slots of a map.
use graphdblite.Base.{
  ℕ, suc, Bool, List, [], ◌∷◌, Option, none, some, leb, bytes_eq, if◌then◌else◌, Bytes,
}
use graphdblite.Base.Int.{ℤ, pos, negsuc}

-- A stored number or string.
pub data Stored : Type 0 where
  int : ℤ → Stored
  string : Bytes → Stored

pub data Kind : Type 0 where
  u32_kind i32_kind i64_kind string_kind : Kind

-- The errors of serde: those that the visitors raise, that of an unknown field, and that of a value
-- that does not fit the type.
pub data DeError : Type 0 where
  invalid_length : ℕ → DeError
  missing_field : Bytes → DeError
  custom : Bytes → DeError
  unknown_field : Bytes → DeError
  wrong_value : Kind → Stored → DeError

pub data De {ℓ} (A : Type ℓ) : Type ℓ where
  ok : A → De A
  error : DeError → De A

infixl 20 ◌>>=◌
abbrev pub ◌>>=◌ {ℓ κ} : {A : Type ℓ} {B : Type κ} → De A → (A → De B) → De B
ok a >>= next = next a
error e >>= next = error e

abbrev pub custom_or {ℓ} : {A : Type ℓ} → Bytes → Option A → De A
custom_or message none = error (custom message)
custom_or message (some a) = ok a

-- A number that the type of so many values above and below 0 holds.
abbrev pub in_range : ℕ → ℕ → ℤ → Bool
in_range above below (pos n) = leb n above
in_range above below (negsuc n) = leb (suc n) below

abbrev pub read_int : ℕ → ℕ → Kind → Stored → De ℤ
read_int above below kind (int z) =
    if in_range above below z then ok z else error (wrong_value kind (int z))
read_int above below kind (string s) = error (wrong_value kind (string s))

abbrev pub read_i32 : Stored → De ℤ
read_i32 v = read_int 0x7fffffff 0x80000000 i32_kind v

abbrev pub read_i64 : Stored → De ℤ
read_i64 v = read_int 0x7fffffffffffffff 0x8000000000000000 i64_kind v

abbrev pub read_u32 : Stored → De ℕ
read_u32 (int (pos n)) =
    if leb n 0xffffffff then ok n else error (wrong_value u32_kind (int (pos n)))
read_u32 (int (negsuc n)) = error (wrong_value u32_kind (int (negsuc n)))
read_u32 (string s) = error (wrong_value u32_kind (string s))

abbrev pub read_string : Stored → De Bytes
read_string (string s) = ok s
read_string (int z) = error (wrong_value string_kind (int z))

-- `next_element` with `invalid_length` at the end of the sequence.
abbrev pub next {ℓ} : {A : Type ℓ} → (Stored → De A) → ℕ → List Stored → De (A × List Stored)
next read i [] = error (invalid_length i)
next read i (x ∷ xs) = read x >>= λ a. ok (a, xs)

-- `next_element().ok().flatten()`.
abbrev pub string_of : De Bytes → Option Bytes
string_of (ok s) = some s
string_of (error e) = none

abbrev pub next_string : List Stored → Option Bytes
next_string [] = none
next_string (x ∷ xs) = string_of (read_string x)

abbrev pub lookup {ℓ} : {A : Type ℓ} → Bytes → List (Bytes × A) → Option A
lookup name [] = none
lookup name ((key, a) ∷ rest) =
    let found = lookup name rest in if bytes_eq key name then some a else found

-- Whether a value can be read at a kind.
abbrev pub check_kind : Kind → Stored → De Stored
check_kind u32_kind v = read_u32 v >>= λ n. ok v
check_kind i32_kind v = read_i32 v >>= λ n. ok v
check_kind i64_kind v = read_i64 v >>= λ n. ok v
check_kind string_kind v = read_string v >>= λ n. ok v

abbrev pub checked : Bytes → Option Kind → Stored → De Stored
checked key none v = error (unknown_field key)
checked key (some kind) v = check_kind kind v

-- The loop over the entries of a map: each value is read at the type of its field, and goes to the
-- slot of the field, in front of an earlier one.
abbrev pub collect :
    List (Bytes × Kind) → List (Bytes × Stored) → List (Bytes × Stored) → De (List (Bytes × Stored))
collect fields slots [] = ok slots
collect fields slots ((key, v) ∷ rest) =
    checked key (lookup key fields) v >>= λ read. collect fields ((key, read) ∷ slots) rest

abbrev pub or_missing {ℓ} : {A : Type ℓ} → Bytes → (Stored → De A) → Option Stored → De A
or_missing name read none = error (missing_field name)
or_missing name read (some v) = read v

abbrev pub required {ℓ} : {A : Type ℓ} → (Stored → De A) → Bytes → List (Bytes × Stored) → De A
required read name slots = or_missing name read (lookup name slots)

abbrev pub read_some : Option Stored → De (Option Bytes)
read_some none = ok none
read_some (some v) = read_string v >>= λ s. ok (some s)

abbrev pub optional_string : Bytes → List (Bytes × Stored) → De (Option Bytes)
optional_string name slots = read_some (lookup name slots)
