-- ===== src/Cypher/Slots.antt =====
-- cypher/record_v2.rs: rows by slot, and the schema that gives each binding name its slot. `none` is
-- a panic: a slot out of range, or one past the last `u32`.
pub mod Laws
use graphdblite.Base.{
  ◌^◌, ℕ, zero, suc, Option, none, some, List, [], ◌∷◌, ◌++◌, length, get_elem?, ltb, if◌then◌else◌,
  Bytes, bytes_eq,
}
use graphdblite.Types.Value.{Value, null}

-- `SlotId::from_usize`.
abbrev pub from_usize : ℕ → Option ℕ
from_usize i = if ltb i (2 ^ 32) then some i else none

abbrev pub replicate : ℕ → Value → List Value
replicate zero v = []
replicate (suc n) v = v ∷ replicate n v

-- A row is the list of its values.
abbrev pub null_row : ℕ → List Value
null_row n = replicate n null

abbrev pub get_value : List Value → ℕ → Option Value
get_value values slot = get_elem? values slot

abbrev kept : Value → Option (List Value) → Option (List Value)
kept v none = none
kept v (some vs) = some (v ∷ vs)

unfoldable pub set_value : List Value → ℕ → Value → Option (List Value)
set_value [] slot w = none
set_value (v ∷ vs) zero w = some (w ∷ vs)
set_value (v ∷ vs) (suc slot) w = kept v (set_value vs slot w)

abbrev placed : List Value → Value → Option ℕ → Option (List Value × ℕ)
placed values v none = none
placed values v (some slot) = some (values ++ v ∷ [], slot)

abbrev pub push_value : List Value → Value → Option (List Value × ℕ)
push_value values v = placed values v (from_usize (length values))

pub record RecordSchema : Type 0 where
  pub by_name : List (Bytes × ℕ)
  pub names : List Bytes

abbrev pub empty_schema : RecordSchema
empty_schema = record { by_name = []; names = [] }

abbrev pub slot_in : List (Bytes × ℕ) → Bytes → Option ℕ
slot_in [] name = none
slot_in ((n, slot) ∷ entries) name = if bytes_eq n name then some slot else slot_in entries name

abbrev pub slot_of : RecordSchema → Bytes → Option ℕ
slot_of s name = slot_in s.by_name name

abbrev pub name_at : RecordSchema → ℕ → Option Bytes
name_at s slot = get_elem? s.names slot

abbrev pub append_name : RecordSchema → Bytes → ℕ → RecordSchema
append_name s name slot = record {
  by_name = (name, slot) ∷ s.by_name;
  names = s.names ++ name ∷ [];
}

abbrev pub added : RecordSchema → Bytes → Option ℕ → Option (RecordSchema × ℕ)
added s name none = none
added s name (some slot) = some (append_name s name slot, slot)

unfoldable pub add : RecordSchema → Bytes → Option (RecordSchema × ℕ)
add s name = elim (slot_of s name) [
  | some slot ↦ some (s, slot)
  | none ↦ added s name (from_usize (length s.names))
]
