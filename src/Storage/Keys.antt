-- ===== src/Storage/Keys.antt =====
-- storage/edge.rs: the keys of the adjacency and edge tables, and what is read back from a key.
use graphdblite.Base.{
  ℕ, ◌+◌, ◌<◌, ◌≡◌, refl, ap, Bool, false, ◌&&◌, Option, none, some, [], ◌∷◌, ◌++◌, append_assoc,
  arith, ltb, leb, ◌==◌, if◌then◌else◌, Bytes, All, bytes_eq, starts_with, length, length-append,
  take, drop, u64_to_be, u64_from_be, length-u64_to_be, bytes_eq-u64_to_be, u64_from_be-u64_to_be,
  starts_with-append_append, bytes_eq-append_append, drop-append,
}
use graphdblite.Types.Utf8.{is_utf8, is_utf8_ascii}
use graphdblite.Storage.Encoding.{IsU64}

unfoldable pub adj_key : ℕ → Bytes → Bytes
adj_key node_id label = u64_to_be node_id ++ label

unfoldable pub edge_props_key : ℕ → ℕ → Bytes → ℕ → Bytes
edge_props_key src dst label seq =
    u64_to_be src ++ (u64_to_be dst ++ (label ++ (0 ∷ u64_to_be seq)))

unfoldable pub edge_props_prefix : ℕ → ℕ → Bytes → Bytes
edge_props_prefix src dst label = u64_to_be src ++ (u64_to_be dst ++ (label ++ (0 ∷ [])))

unfoldable pub edge_seq_from_key : Bytes → ℕ → ℕ
edge_seq_from_key key prefix_len =
    if leb (prefix_len + 8) (length key) then u64_from_be (take 8 (drop prefix_len key)) else 0

-- `position(|&b| b == 0x00)`, with what stands before it.
before_nul : Bytes → Option Bytes
before_nul [] = none
before_nul (b ∷ bs) =
    let more = before_nul bs in
    if b == 0 then some [] else elim more [ none ↦ none | some l ↦ some (b ∷ l) ]

unfoldable pub label_from_edge_props_key : Bytes → Option Bytes
unfolding before_nul
label_from_edge_props_key key =
    if ltb (length key) 16 then none else elim (before_nul (drop 16 key)) [
      | none ↦ none
      | some label ↦ if is_utf8 label then some label else none
    ]

-- A label without a NUL byte, as `validate_name` accepts it.
abbrev pub NoNul : Bytes → Type 0
NoNul = All (λ b. 0 < b)

abbrev same_label : Bytes → Bytes → Bool
same_label = bytes_eq

pub bytes_eq-adj_key :
    (a b : ℕ) (l m : Bytes)
    → IsU64 a
    → IsU64 b
    → bytes_eq (adj_key a l) (adj_key b m) ≡ (a == b && bytes_eq l m)
unfolding adj_key
bytes_eq-adj_key a b l m ha hb = rw (
  bytes_eq-append_append (u64_to_be a) (u64_to_be b) l m
      (omega (arith, length-u64_to_be a, length-u64_to_be b)),
  bytes_eq-u64_to_be a b ha hb,
)

-- Up to the first NUL.
label_prefix :
    (l m : Bytes) (rest : Bytes)
    → NoNul l
    → NoNul m
    → starts_with (l ++ 0 ∷ []) (m ++ 0 ∷ rest) ≡ bytes_eq l m
label_prefix [] [] rest hl hm = refl
label_prefix [] (y ∷ m) rest hl (hy, hm) = ground arith
label_prefix (x ∷ l) [] rest (hx, hl) hm = ground arith
label_prefix (x ∷ l) (y ∷ m) rest (hx, hl) (hy, hm) = ground (arith, label_prefix l m rest)

-- An edge's key lies under the prefix of a source, destination and label just when they are its own.
pub starts_with-edge_props_prefix :
    (s d s' d' : ℕ) (l m : Bytes) (seq : ℕ)
    → IsU64 s
    → IsU64 d
    → IsU64 s'
    → IsU64 d'
    → NoNul l
    → NoNul m
    → starts_with (edge_props_prefix s d l) (edge_props_key s' d' m seq)
      ≡ (s == s' && (d == d' && bytes_eq l m))
unfolding edge_props_prefix edge_props_key
starts_with-edge_props_prefix s d s' d' l m seq hs hd hs' hd' hl hm = rw (
  starts_with-append_append (u64_to_be s) (u64_to_be s') _ _
      (omega (arith, length-u64_to_be s, length-u64_to_be s')),
  starts_with-append_append (u64_to_be d) (u64_to_be d') _ _
      (omega (arith, length-u64_to_be d, length-u64_to_be d')),
  bytes_eq-u64_to_be s s' hs hs',
  bytes_eq-u64_to_be d d' hd hd',
  label_prefix l m (u64_to_be seq) hl hm,
)

-- The same for every key under the second prefix.
pub starts_with-edge_props_prefix-append :
    (s d s' d' : ℕ) (l m rest : Bytes)
    → IsU64 s
    → IsU64 d
    → IsU64 s'
    → IsU64 d'
    → NoNul l
    → NoNul m
    → starts_with (edge_props_prefix s d l) (edge_props_prefix s' d' m ++ rest)
      ≡ (s == s' && (d == d' && bytes_eq l m))
unfolding edge_props_prefix
starts_with-edge_props_prefix-append s d s' d' l m rest hs hd hs' hd' hl hm = rw (
  append_assoc (u64_to_be s') (u64_to_be d' ++ (m ++ 0 ∷ [])) rest,
  append_assoc (u64_to_be d') (m ++ 0 ∷ []) rest,
  append_assoc m (0 ∷ []) rest,
  starts_with-append_append (u64_to_be s) (u64_to_be s') _ _
      (omega (arith, length-u64_to_be s, length-u64_to_be s')),
  starts_with-append_append (u64_to_be d) (u64_to_be d') _ _
      (omega (arith, length-u64_to_be d, length-u64_to_be d')),
  bytes_eq-u64_to_be s s' hs hs',
  bytes_eq-u64_to_be d d' hd hd',
  label_prefix l m rest hl hm,
)

before_nul-append : (l rest : Bytes) → NoNul l → before_nul (l ++ 0 ∷ rest) ≡ some l
unfolding before_nul
before_nul-append [] rest h = refl
before_nul-append (b ∷ l) rest (hb, h) = ground (arith, before_nul-append l rest h)

take_all : (xs : Bytes) → take (length xs) xs ≡ xs
take_all [] = refl
take_all (x ∷ xs) = ap (λ (l : Bytes). x ∷ l) (take_all xs)

edge_props_key-append :
    (s d : ℕ) (l : Bytes) (seq : ℕ)
    → edge_props_key s d l seq ≡ edge_props_prefix s d l ++ u64_to_be seq
unfolding edge_props_key edge_props_prefix
edge_props_key-append s d l seq = simp append_assoc

-- The sequence number is read back from an edge's key.
pub edge_seq_from_key-edge_props_key :
    (s d : ℕ) (l : Bytes) (seq : ℕ)
    → IsU64 seq
    → edge_seq_from_key (edge_props_key s d l seq) (length (edge_props_prefix s d l)) ≡ seq
unfolding edge_seq_from_key
edge_seq_from_key-edge_props_key s d l seq h =
    let p = edge_props_prefix s d l in
    rw (edge_props_key-append, drop-append, ← length-u64_to_be seq, take_all)
      (ground
        (arith, length-append p (u64_to_be seq), length-u64_to_be seq, u64_from_be-u64_to_be seq h))

drop_sixteen : (s d : ℕ) (rest : Bytes) → drop 16 (u64_to_be s ++ (u64_to_be d ++ rest)) ≡ rest
drop_sixteen s d rest =
    let front = u64_to_be s ++ u64_to_be d in
    let sixteen : length front ≡ 16 =
      omega (
        arith,
        length-append (u64_to_be s) (u64_to_be d),
        length-u64_to_be s,
        length-u64_to_be d,
      ) in
    rw (← append_assoc (u64_to_be s) (u64_to_be d) rest, ← sixteen) (drop-append front rest)

long_enough :
    (s d : ℕ) (rest : Bytes) → ltb (length (u64_to_be s ++ (u64_to_be d ++ rest))) 16 ≡ false
long_enough s d rest = ground (
  arith,
  length-append (u64_to_be s) (u64_to_be d ++ rest),
  length-append (u64_to_be d) rest,
  length-u64_to_be s,
  length-u64_to_be d,
)

-- The label is read back from an edge's key.
pub label_from_edge_props_key-edge_props_key :
    (s d : ℕ) (l : Bytes) (seq : ℕ)
    → NoNul l
    → All (λ b. b < 128) l
    → label_from_edge_props_key (edge_props_key s d l seq) ≡ some l
unfolding label_from_edge_props_key edge_props_key
label_from_edge_props_key-edge_props_key s d l seq hn ha = rw (
  long_enough s d (l ++ 0 ∷ u64_to_be seq),
  drop_sixteen s d (l ++ 0 ∷ u64_to_be seq),
  before_nul-append l (u64_to_be seq) hn,
  is_utf8_ascii l ha,
)
