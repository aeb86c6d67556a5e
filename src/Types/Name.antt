-- ===== src/Types/Name.antt =====
-- types.rs: `validate_name` and `validate_name_length`.
use graphdblite.Base.{
  ℕ, ◌<◌, ◌≡◌, Bool, true, false, not, ◌&&◌, ◌||◌, List, [], ◌∷◌, ◌++◌, arith, leb, ltb, ◌==◌,
  if◌then◌else◌, Bytes, text, All, length, take, min,
}
use graphdblite.Types.Error.{Result, ok, err, invalid_name, size_limit}

abbrev pub is_ascii_alphanumeric : ℕ → Bool
is_ascii_alphanumeric b =
    (leb b'0' b && leb b b'9') || (leb b'A' b && leb b b'Z') || (leb b'a' b && leb b b'z')

abbrev pub all_bytes : (ℕ → Bool) → Bytes → Bool
all_bytes p [] = true
all_bytes p (b ∷ bs) = p b && all_bytes p bs

abbrev pub is_empty {ℓ} : {A : Type ℓ} → List A → Bool
is_empty [] = true
is_empty (x ∷ xs) = false

abbrev pub is_name_byte : ℕ → Bool
is_name_byte b = is_ascii_alphanumeric b || b == b'_'

unfoldable pub validate_name : Bytes → Result (Unit {0})
validate_name name =
    if is_empty name || not (all_bytes is_name_byte name) then err (invalid_name name) else ok tt

unfoldable pub validate_name_length : Bytes → ℕ → Result (Unit {0})
validate_name_length name max_bytes =
    if ltb max_bytes (length name)
    then err (
        size_limit (text "name '" ++ (take (min max_bytes 32) name ++ text "...'")) max_bytes
          (length name))
    else ok tt

-- An accepted name has no NUL byte and no `$`, and all its bytes are ASCII.
abbrev pub IsPlain : Bytes → Type 0
IsPlain = All (λ b. (b < 128) × (0 < b) × ((b == b'$') ≡ false))

all_bytes-IsPlain : (name : Bytes) → all_bytes is_name_byte name ≡ true → IsPlain name
all_bytes-IsPlain [] h = tt
all_bytes-IsPlain (b ∷ bs) h = (byte, all_bytes-IsPlain bs (ground arith))
  where
    byte : (b < 128) × (0 < b) × ((b == b'$') ≡ false)
    byte = ground arith

-- A name that is accepted has only ASCII bytes, no NUL and no `$`.
pub validate_name-IsPlain : (name : Bytes) → validate_name name ≡ ok tt → IsPlain name
unfolding validate_name
validate_name-IsPlain name h = all_bytes-IsPlain name (ground arith)
