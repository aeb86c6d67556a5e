-- ===== src/Storage/Encoding.antt =====
-- storage/encoding.rs: delta-varint encoding of sorted id lists, and the sorted lists themselves.
-- A `u64` is a number below 2 ^ 64 and a byte one below 256; the arithmetic that wraps in a release
-- build is written out.
pub mod Varint
pub mod Idlist
pub mod Sorted
use mathlib.Core.Logic.{dite}
use mathlib.Core.WellFounded.{Acc}
use native.Mathlib.Decide.{dec_lt}
use graphdblite.Base.{
  ℕ, zero, suc, ◌+◌, ◌-◌, ◌*◌, ◌/◌, ◌%◌, ◌^◌, ◌<◌, bit_and, bit_or, Bool, true, false, Option, none,
  some, List, [], ◌∷◌, ◌++◌, arith, length, get_elem?, take, drop, ltb, ◌==◌, if◌then◌else◌, lt_wf,
}

abbrev pub u64_mod : ℕ
u64_mod = 2 ^ 64

abbrev pub IsU64 : ℕ → Type 0
IsU64 n = n < u64_mod

shift_falls : (value : ℕ) → 0 < value / 128 → value / 128 < value
shift_falls value h = omega arith

-- The loop of `encode_varint`; it goes on while the shifted value is not 0.
varint_loop : (value : ℕ) → Acc ◌<◌ value → List ℕ → List ℕ
varint_loop value (Acc.intro _ smaller) buf =
    let byte = bit_and value 0x7f in
    dite (dec_lt 0 (value / 128))
      (λ more.
        varint_loop (value / 128) (smaller _ (shift_falls value more))
          (buf ++ bit_or byte 0x80 ∷ []))
      (λ _. buf ++ byte ∷ [])

pub encode_varint : ℕ → List ℕ → List ℕ
encode_varint value buf = varint_loop value (lt_wf.apply value) buf

-- The loop of `decode_varint` at byte `i`. The shift of a `u64` takes its count modulo 64.
pub decode_loop : List ℕ → ℕ → ℕ → ℕ → Option (ℕ × ℕ)
decode_loop [] i value shift = none
decode_loop (byte ∷ rest) i value shift =
    let value' = bit_or value (bit_and byte 0x7f * 2 ^ (shift % 64) % u64_mod) in
    let more = decode_loop rest (i + 1) value' (shift + 7) in
    if bit_and byte 0x80 == 0 then some (value', i + 1) else more

pub decode_varint : List ℕ → Option (ℕ × ℕ)
decode_varint bytes = decode_loop bytes 0 0 0

-- The loop of `encode_id_list`.
encode_ids : List ℕ → ℕ → List ℕ → List ℕ
encode_ids [] prev buf = buf
encode_ids (id ∷ ids) prev buf =
    encode_ids ids id (encode_varint ((id + u64_mod - prev) % u64_mod) buf)

unfoldable pub encode_id_list : List ℕ → List ℕ
unfolding encode_ids encode_varint varint_loop shift_falls lt_wf dec_lt
encode_id_list ids = encode_ids ids 0 []

-- The loop of `decode_id_list` on the bytes from `pos` on. A varint takes a byte at least, so the
-- length of the input is fuel enough.
decode_ids : ℕ → List ℕ → ℕ → List ℕ → List ℕ
decode_ids zero bytes prev ids = ids
decode_ids (suc fuel) [] prev ids = ids
decode_ids (suc fuel) (b ∷ bs) prev ids = elim (decode_varint (b ∷ bs)) [
  | none ↦ ids
  | some (delta, bytes_read) ↦
      let prev' = (prev + delta) % u64_mod in
      decode_ids fuel (drop bytes_read (b ∷ bs)) prev' (ids ++ prev' ∷ [])
]

unfoldable pub decode_id_list : List ℕ → List ℕ
unfolding decode_ids decode_varint decode_loop
decode_id_list bytes = decode_ids (length bytes) bytes 0 []

-- `slice::binary_search` on a sorted slice without duplicates: where the item is, or where it goes.
pub data Search : Type 0 where
  found missing : ℕ → Search

abbrev pub is_found : Search → Bool
is_found (found pos) = true
is_found (missing pos) = false

-- How many leading items are smaller.
lower_bound : List ℕ → ℕ → ℕ
lower_bound [] id = 0
lower_bound (x ∷ xs) id = let n = suc (lower_bound xs id) in if ltb x id then n else 0

search_at : Option ℕ → ℕ → ℕ → Search
search_at none pos id = missing pos
search_at (some x) pos id = if x == id then found pos else missing pos

unfoldable pub binary_search : List ℕ → ℕ → Search
unfolding lower_bound search_at
binary_search ids id = let pos = lower_bound ids id in search_at (get_elem? ids pos) pos id

insert_at : Search → List ℕ → ℕ → List ℕ
insert_at (found pos) ids id = ids
insert_at (missing pos) ids id = take pos ids ++ (id ∷ drop pos ids)

unfoldable pub insert_into_sorted : List ℕ → ℕ → List ℕ
unfolding binary_search insert_at
insert_into_sorted ids id = insert_at (binary_search ids id) ids id

remove_at : Search → List ℕ → List ℕ × Bool
remove_at (found pos) ids = (take pos ids ++ drop (suc pos) ids, true)
remove_at (missing pos) ids = (ids, false)

unfoldable pub remove_from_sorted : List ℕ → ℕ → List ℕ × Bool
unfolding binary_search remove_at
remove_from_sorted ids id = remove_at (binary_search ids id) ids
