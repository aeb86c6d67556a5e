-- ===== src/Storage/Encoding/Varint.antt =====
-- `encode_varint` and `decode_varint`.
use mathlib.Core.WellFounded.{Acc}
use native.Mathlib.Nat.{div-add-mod, mod-eq_of_lt}
use native.Mathlib.Numerals.{towards_suc}
use graphdblite.Base.{
  ℕ, zero, suc, ◌+◌, ◌*◌, ◌/◌, ◌%◌, ◌^◌, ◌≤◌, ◌<◌, ◌≡◌, ap, bit_or, some, List, [], ◌∷◌, ◌++◌,
  arith, length, append_assoc, ltb, if◌then◌else◌,
}
use graphdblite.Base.Bits.{bit_or_high, bit_and_low7, bit_or_top, bit_and_top}
use graphdblite.Storage.Encoding.{
  u64_mod, IsU64, varint_loop, encode_varint, decode_loop, decode_varint,
}

-- The groups of seven bits, the lowest first, of a value below 128 ^ (k + 1).
unfoldable pub groups : ℕ → ℕ → List ℕ
groups zero v = v ∷ []
groups (suc k) v =
    let rest = groups k (v / 128) in if ltb v 128 then v ∷ [] else (v % 128 + 128) ∷ rest

varint_loop-groups :
    (k v : ℕ) (w : Acc ◌<◌ v) (buf : List ℕ)
    → v < 128 ^ suc k
    → varint_loop v w buf ≡ buf ++ groups k v
unfolding varint_loop groups
varint_loop-groups zero v (Acc.intro _ smaller) buf h = ground (arith, bit_and_low7 v)
varint_loop-groups (suc k) v (Acc.intro _ smaller) buf h = grind (
  arith,
  bit_and_low7 v,
  bit_or_top (v % 128),
  λ (w : Acc ◌<◌ (v / 128)).
      varint_loop-groups k (v / 128) w (buf ++ (v % 128 + 128) ∷ []) (omega arith),
  append_assoc buf ((v % 128 + 128) ∷ []) (groups k (v / 128)),
)

pub encode_varint-groups :
    (v : ℕ) (buf : List ℕ) → IsU64 v → encode_varint v buf ≡ buf ++ groups 9 v
unfolding encode_varint
encode_varint-groups v buf h = varint_loop-groups 9 v _ buf (omega arith)

-- A place seven bits further up counts 128 times as much.
place_up : (bit : ℕ) → 2 ^ (bit + 7) ≡ 128 * 2 ^ bit
place_up bit = simp towards_suc (omega arith)

-- The two parts of a value, put together again above a bit.
parts_joined :
    (bit value : ℕ) → value % 128 * 2 ^ bit + value / 128 * 2 ^ (bit + 7) ≡ value * 2 ^ bit
parts_joined bit value =
    let whole = ap (λ (part : ℕ). part * 2 ^ bit) (div-add-mod value 128) in
    rw (place_up bit) (omega (arith, whole))

-- What one byte with group `g` adds to the value.
add_group :
    (value g s : ℕ)
    → g < 128
    → s < 64
    → value < 2 ^ s
    → IsU64 (value + g * 2 ^ s)
    → bit_or value (g * 2 ^ (s % 64) % u64_mod) ≡ value + g * 2 ^ s
add_group value g s hg hs hv fits =
    rw (mod-eq_of_lt hs, mod-eq_of_lt field_fits) (bit_or_high s value g hv)
  where
    field_fits : g * 2 ^ s < u64_mod
    field_fits = omega arith

last_byte :
    (g i value s : ℕ) (rest : List ℕ)
    → g < 128
    → s < 64
    → value < 2 ^ s
    → IsU64 (value + g * 2 ^ s)
    → decode_loop (g ∷ rest) i value s ≡ some (value + g * 2 ^ s, i + 1)
unfolding decode_loop
last_byte g i value s rest hg hs hv fits =
    ground (arith, bit_and_low7 g, bit_and_top g, add_group value g s)

inner_byte :
    (g i value s : ℕ) (rest : List ℕ)
    → g < 128
    → s < 64
    → value < 2 ^ s
    → IsU64 (value + g * 2 ^ s)
    → decode_loop ((g + 128) ∷ rest) i value s
      ≡ decode_loop rest (i + 1) (value + g * 2 ^ s) (s + 7)
unfolding decode_loop
inner_byte g i value s rest hg hs hv fits =
    ground (arith, bit_and_low7 (g + 128), bit_and_top (g + 128), add_group value g s)

decode_loop-groups :
    (k w i value s : ℕ) (rest : List ℕ)
    → w < 128 ^ suc k
    → s + 7 * k ≤ 63
    → value < 2 ^ s
    → IsU64 (value + w * 2 ^ s)
    → decode_loop (groups k w ++ rest) i value s ≡ some (value + w * 2 ^ s, i + length (groups k w))
unfolding groups
decode_loop-groups zero w i value s rest hw hs hv fits =
    last_byte w i value s rest hw (omega arith) hv fits
decode_loop-groups (suc k) w i value s rest hw hs hv fits = ground (
  arith,
  group_fits,
  parts_joined s w,
  place_up s,
  last_byte w i value s rest,
  inner_byte (w % 128) i value s (groups k (w / 128) ++ rest),
  decode_loop-groups k (w / 128) (i + 1) (value + w % 128 * 2 ^ s) (s + 7) rest (omega arith),
)
  where
    group_fits : value + w % 128 * 2 ^ s < 128 * 2 ^ s
    group_fits = grind arith

-- The decoder reads a `u64` back and reports the bytes that the encoder wrote, whatever follows.
pub decode_varint-groups :
    (v : ℕ) (rest : List ℕ)
    → IsU64 v
    → decode_varint (groups 9 v ++ rest) ≡ some (v, length (groups 9 v))
unfolding decode_varint
decode_varint-groups v rest h = ground (arith, decode_loop-groups 9 v 0 0 0 rest)

pub length-groups : (k v : ℕ) → (1 ≤ length (groups k v)) × (length (groups k v) ≤ k + 1)
unfolding groups
length-groups zero v = omega arith
length-groups (suc k) v = ground (arith, length-groups k (v / 128))

-- A `u64` comes back from its varint, whatever bytes follow, with the number of bytes read.
pub decode_varint-encode_varint :
    (v : ℕ) (rest : List ℕ)
    → IsU64 v
    → decode_varint (encode_varint v [] ++ rest) ≡ some (v, length (encode_varint v []))
decode_varint-encode_varint v rest h =
    rw (encode_varint-groups v [] h) (decode_varint-groups v rest h)
