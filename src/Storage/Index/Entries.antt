-- ===== src/Storage/Index/Entries.antt =====
-- The keys of an index and the scans that find them.
use graphdblite.Base.{
  ℕ, ◌-◌, true, Option, none, some, List, [], ◌∷◌, ◌++◌, append_assoc, length, length-append,
  drop-append, leb, starts_with, starts_with-append, Bytes, IsByte, u64_to_be, length-u64_to_be,
  u64_from_be-u64_to_be, ◌≡◌, refl, sym, ◌∙◌, ◌⊎◌, All, arith,
}
use graphdblite.Types.Error.{Result, ok, err}
use graphdblite.Types.Value.{Value}
use graphdblite.Storage.Sql.{in_range}
use graphdblite.Storage.Codec.{serialized}
use graphdblite.Storage.Encoding.{IsU64}
use graphdblite.Storage.Kv.{prefix_upper_bound}
use graphdblite.Storage.Kv.Prefix.{
  bound_before, upper_bound, upper_bound_lem, in_range-prefix_upper_bound,
}
use graphdblite.Storage.Index.{
  append_frame, composite_index_key, prefix_bytes, raise, next_prefix, ids_of_keys,
}

raise_lem : (b : ℕ) (o : Option Bytes) → raise b o ≡ bound_before b o
raise_lem b none = refl
raise_lem b (some rest) = refl

next_prefix_lem : (prefix : Bytes) → next_prefix prefix ≡ upper_bound prefix
unfolding next_prefix
next_prefix_lem [] = refl
next_prefix_lem (b ∷ bs) = rw (next_prefix_lem bs) (raise_lem b (upper_bound bs))

-- The bound of an index scan is that of kv::scan_prefix.
pub next_prefix-prefix_upper_bound :
    (prefix : Bytes) → next_prefix prefix ≡ prefix_upper_bound prefix
next_prefix-prefix_upper_bound prefix = next_prefix_lem prefix ∙ sym (upper_bound_lem prefix)

append_frame-ok :
    (a b : Result Bytes) (bytes : Bytes)
    → append_frame a b ≡ ok bytes
    → (x : Bytes) × (y : Bytes) × (a ≡ ok x) × (b ≡ ok y) × (bytes ≡ x ++ y)
append_frame-ok (ok x) (ok y) bytes h = let e : x ++ y ≡ bytes = cc h in (x, y, refl, refl, sym e)
append_frame-ok (ok x) (err e) bytes h = cc
append_frame-ok (err e) b bytes h = cc

module _ (value_to_vec : Value → Bytes ⊎ Bytes) where
  key_end :
      (vs : List Value) (id : ℕ) (key : Bytes)
      → composite_index_key value_to_vec vs id ≡ ok key
      → (frames : Bytes) × (key ≡ frames ++ u64_to_be id)
  unfolding composite_index_key
  key_end [] id key h = let e : u64_to_be id ≡ key = cc h in ([], sym e)
  key_end (v ∷ vs) id key h =
      let (x, y, a, b, e) =
        append_frame-ok (serialized (value_to_vec v)) (composite_index_key value_to_vec vs id) key
          h in
      let (frames, same) = key_end vs id y b in
      (x ++ frames, rw (e, same) (sym (append_assoc x frames (u64_to_be id))))

  key_start :
      (vs ws : List Value) (id : ℕ) (prefix key : Bytes)
      → prefix_bytes value_to_vec vs ≡ ok prefix
      → composite_index_key value_to_vec (vs ++ ws) id ≡ ok key
      → (rest : Bytes) × (key ≡ prefix ++ rest)
  unfolding composite_index_key prefix_bytes
  key_start [] ws id prefix key p h = let e : [] ≡ prefix = cc p in rw (← e) (key, refl)
  key_start (v ∷ vs) ws id prefix key p h =
      let (x, y, a, b, e) =
        append_frame-ok (serialized (value_to_vec v)) (prefix_bytes value_to_vec vs) prefix p in
      let (x', y', a', b', e') =
        append_frame-ok (serialized (value_to_vec v))
          (composite_index_key value_to_vec (vs ++ ws) id) key h in
      let (rest, same) = key_start vs ws id y y' b b' in
      let one : x' ≡ x = cc in (rest, rw (e', e, one, same) (sym (append_assoc x y rest)))

ids_of_key :
    (frames : Bytes) (id : ℕ) → IsU64 id → ids_of_keys ((frames ++ u64_to_be id) ∷ []) ≡ id ∷ []
unfolding ids_of_keys
ids_of_key frames id h =
    let long : leb 8 (length (frames ++ u64_to_be id)) ≡ true =
      ground (arith, length-append frames (u64_to_be id), length-u64_to_be id) in
    let front : length (frames ++ u64_to_be id) - 8 ≡ length frames =
      omega (arith, length-append frames (u64_to_be id), length-u64_to_be id) in
    rw (long, front, drop-append frames (u64_to_be id), u64_from_be-u64_to_be id h) refl

-- The key of an index entry lies in the range that composite_index_prefix_lookup scans for the first
-- of its values, and the node's identifier is read back from it; the serialiser gives bytes.
pub composite_index_key_lem :
    (value_to_vec : Value → Bytes ⊎ Bytes) (vs ws : List Value) (id : ℕ) (prefix key : Bytes)
    → IsU64 id
    → prefix_bytes value_to_vec vs ≡ ok prefix
    → composite_index_key value_to_vec (vs ++ ws) id ≡ ok key
    → All IsByte prefix
    → All IsByte key
    → (in_range prefix (next_prefix prefix) key ≡ true) × (ids_of_keys (key ∷ []) ≡ id ∷ [])
composite_index_key_lem value_to_vec vs ws id prefix key h p k bytes bytes' =
    let (frames, at_end) = key_end value_to_vec (vs ++ ws) id key k in
    let (rest, at_start) = key_start value_to_vec vs ws id prefix key p k in
    let under : starts_with prefix key ≡ true = rw at_start (starts_with-append prefix rest) in
    (
      rw
          (
            next_prefix-prefix_upper_bound prefix,
            in_range-prefix_upper_bound prefix key bytes bytes',
          )
          under,
      rw at_end (ids_of_key frames id h),
    )
