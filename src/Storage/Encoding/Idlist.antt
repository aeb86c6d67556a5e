-- ===== src/Storage/Encoding/Idlist.antt =====
-- `encode_id_list` and `decode_id_list` undo one another on sorted lists.
use native.Mathlib.Nat.{mod-eq_of_lt}
use graphdblite.Base.{
  ℕ, zero, suc, ◌+◌, ◌-◌, ◌%◌, ◌≤◌, ◌≡◌, sym, ◌∙◌, some, List, [], ◌∷◌, ◌++◌, arith, length,
  length-append, drop, drop-append, append_assoc, append-nil,
}
use graphdblite.Storage.Encoding.{
  u64_mod, IsU64, encode_varint, encode_ids, encode_id_list, decode_varint, decode_loop, decode_ids,
  decode_id_list,
}
use graphdblite.Storage.Encoding.Varint.{
  groups, encode_varint-groups, decode_varint-groups, length-groups,
}

-- Items that do not fall from `lo` on, each a `u64`: what the encoder's `debug_assert` asks for.
abbrev pub Climbs : ℕ → List ℕ → Type 0
Climbs lo [] = Unit {0}
Climbs lo (id ∷ ids) = (lo ≤ id) × IsU64 id × Climbs id ids

-- The encoding of the differences.
abbrev deltas : ℕ → List ℕ → List ℕ
deltas prev [] = []
deltas prev (id ∷ ids) = groups 9 ((id + u64_mod - prev) % u64_mod) ++ deltas id ids

delta_lem : (prev id : ℕ) → prev ≤ id → IsU64 id → (id + u64_mod - prev) % u64_mod ≡ id - prev
delta_lem prev id h fits = omega arith

encode_ids-deltas :
    (ids : List ℕ) (prev : ℕ) (buf : List ℕ) → encode_ids ids prev buf ≡ buf ++ deltas prev ids
unfolding encode_ids
encode_ids-deltas [] prev buf = sym (append-nil buf)
encode_ids-deltas (id ∷ ids) prev buf =
    let d = (id + u64_mod - prev) % u64_mod in
    encode_ids-deltas ids id (encode_varint d buf)
    ∙ rw (encode_varint-groups d buf (omega arith), append_assoc)

-- One round of the decoder.
decode_ids_round :
    (fuel d n : ℕ) (bytes : List ℕ) (prev : ℕ) (ids : List ℕ)
    → decode_varint bytes ≡ some (d, n)
    → decode_ids (suc fuel) bytes prev ids
      ≡ decode_ids fuel (drop n bytes) ((prev + d) % u64_mod) (ids ++ (prev + d) % u64_mod ∷ [])
unfolding decode_ids decode_varint decode_loop
decode_ids_round fuel d n [] prev ids e = cc
decode_ids_round fuel d n (b ∷ bs) prev ids e = rw (e, decode_ids)

decode_ids_step :
    (fuel d : ℕ) (rest : List ℕ) (prev : ℕ) (ids : List ℕ)
    → IsU64 d
    → IsU64 (prev + d)
    → decode_ids (suc fuel) (groups 9 d ++ rest) prev ids
      ≡ decode_ids fuel rest (prev + d) (ids ++ (prev + d) ∷ [])
decode_ids_step fuel d rest prev ids hd fits =
    decode_ids_round fuel d _ (groups 9 d ++ rest) prev ids (decode_varint-groups d rest hd)
    ∙ rw (drop-append, mod-eq_of_lt fits)

decode_ids-deltas :
    (ids : List ℕ) (fuel prev : ℕ) (out : List ℕ)
    → length (deltas prev ids) ≤ fuel
    → Climbs prev ids
    → decode_ids fuel (deltas prev ids) prev out ≡ out ++ ids
decode_ids-deltas [] zero prev out hf h = unfold decode_ids in sym (append-nil out)
decode_ids-deltas [] (suc fuel) prev out hf h = unfold decode_ids in sym (append-nil out)
decode_ids-deltas (id ∷ ids) zero prev out hf h =
    let d = (id + u64_mod - prev) % u64_mod in
    absurd (omega (arith, length-append (groups 9 d) (deltas id ids), length-groups 9 d))
decode_ids-deltas (id ∷ ids) (suc fuel) prev out hf (lo, fits, more) =
    let d = (id + u64_mod - prev) % u64_mod in
    let back : prev + d ≡ id = omega (arith, delta_lem prev id lo fits) in
    decode_ids_step fuel d (deltas id ids) prev out (omega arith) (rw back fits)
    ∙ rw back (
        decode_ids-deltas ids fuel id (out ++ id ∷ [])
          (omega (arith, length-append (groups 9 d) (deltas id ids), length-groups 9 d)) more
        ∙ append_assoc out (id ∷ []) ids)

-- Decoding what was encoded gives the list back, for a list of `u64` that does not fall.
pub decode_id_list-encode_id_list :
    (ids : List ℕ) → Climbs 0 ids → decode_id_list (encode_id_list ids) ≡ ids
decode_id_list-encode_id_list ids h =
    unfold decode_id_list encode_id_list in
    rw (encode_ids-deltas ids 0 [])
      (decode_ids-deltas ids (length (deltas 0 ids)) 0 [] (omega arith) h)
