-- ===== src/Types/Fields.antt =====
-- types.rs: look-ups in properties after an insertion and a removal.
use graphdblite.Base.{
  ◌≡◌, refl, inl, inr, true, false, none, some, Bytes, bytes_eq, bytes_eq_iff, bytes_eq_refl,
  Bool-cases,
}
use graphdblite.Types.Value.{Value, Fields, no_fields, field, get_field, remove_field, insert_field}

pub get_field-insert_field :
    (k : Bytes) (w : Value) (props : Fields) → get_field k (insert_field k w props) ≡ some w
unfolding get_field insert_field
get_field-insert_field k w no_fields = rw (bytes_eq_refl k)
get_field-insert_field k w (field j v rest) = elim (Bool-cases (bytes_eq j k)) [
  | inl same ↦ rw (same, bytes_eq_refl k)
  | inr other ↦ rw other (rw other (get_field-insert_field k w rest))
]

pub get_field-remove_field :
    (k : Bytes) (props : Fields) → get_field k (remove_field k props) ≡ none
unfolding get_field remove_field
get_field-remove_field k no_fields = refl
get_field-remove_field k (field j v rest) = elim (Bool-cases (bytes_eq j k)) [
  | inl same ↦ rw (same, get_field-remove_field k rest)
  | inr other ↦ rw other (rw other (get_field-remove_field k rest))
]

-- A key that is another's equal is no third's.
clashing : (j k i : Bytes) → bytes_eq j k ≡ true → bytes_eq k i ≡ false → bytes_eq j i ≡ false
clashing j k i same other = let e : j ≡ k = (bytes_eq_iff j k).0 same in rw e other

pub get_field-insert_field_other :
    (k i : Bytes) (w : Value) (props : Fields)
    → bytes_eq k i ≡ false
    → get_field i (insert_field k w props) ≡ get_field i props
unfolding get_field insert_field
get_field-insert_field_other k i w no_fields h = rw h
get_field-insert_field_other k i w (field j v rest) h = elim (Bool-cases (bytes_eq j k)) [
  | inl same ↦ rw (same, h, clashing j k i same h)
  | inr other ↦ rw (other, get_field-insert_field_other k i w rest h)
]

pub get_field-remove_field_other :
    (k i : Bytes) (props : Fields)
    → bytes_eq k i ≡ false
    → get_field i (remove_field k props) ≡ get_field i props
unfolding get_field remove_field
get_field-remove_field_other k i no_fields h = refl
get_field-remove_field_other k i (field j v rest) h = elim (Bool-cases (bytes_eq j k)) [
  | inl same ↦ rw (same, clashing j k i same h, get_field-remove_field_other k i rest h)
  | inr other ↦ rw (other, get_field-remove_field_other k i rest h)
]
