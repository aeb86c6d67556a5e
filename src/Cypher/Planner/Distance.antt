-- ===== src/Cypher/Planner/Distance.antt =====
-- The edit distance by which an error suggests a name: two rows of a table, filled from left to right.
-- `none` is an index out of range.
use graphdblite.Base.{
  ℕ, zero, suc, ◌+◌, min, Option, some, List, [], ◌∷◌, length, get_elem?, if◌then◌else◌, ◌==◌, ◌≡◌,
  refl, arith, Bytes,
}

-- The numbers from the first, one more than the count says.
abbrev range : ℕ → ℕ → List ℕ
range from zero = from ∷ []
range from (suc n) = from ∷ range (suc from) n

abbrev cost : ℕ → ℕ → ℕ
cost ca cb = if ca == cb then 0 else 1

-- The loop over the second string: the entry to the left, the one above that, and those above.
unfoldable pub fill_row : ℕ → ℕ → ℕ → Bytes → List ℕ → List ℕ
fill_row ca left diagonal [] above = []
fill_row ca left diagonal (cb ∷ bs) [] = []
fill_row ca left diagonal (cb ∷ bs) (up ∷ above) =
    let entry = min (min (left + 1) (up + 1)) (diagonal + cost ca cb) in
    entry ∷ fill_row ca entry up bs above

abbrev next_row : ℕ → ℕ → Bytes → List ℕ → List ℕ
next_row i ca b [] = []
next_row i ca b (first ∷ above) = (i + 1) ∷ fill_row ca (i + 1) first b above

-- The loop over the first string.
unfoldable pub rows : ℕ → Bytes → Bytes → List ℕ → List ℕ
unfolding fill_row
rows i [] b prev = prev
rows i (ca ∷ a) b prev = rows (i + 1) a b (next_row i ca b prev)

unfoldable pub levenshtein_lc : Bytes → Bytes → Option ℕ
unfolding rows
levenshtein_lc [] b = some (length b)
levenshtein_lc (ca ∷ a) [] = some (length (ca ∷ a))
levenshtein_lc (ca ∷ a) (cb ∷ b) =
    get_elem? (rows 0 (ca ∷ a) (cb ∷ b) (range 0 (length (cb ∷ b)))) (length (cb ∷ b))

-- The distance by its three cases on the last characters: leave out one, leave out the other, or
-- replace one by the other. The strings stand with their last character first.
abbrev pub extend : ℕ → (Bytes → ℕ) → Bytes → ℕ
extend x shorter [] = shorter [] + 1
extend x shorter (y ∷ ys) =
    min (min (extend x shorter ys + 1) (shorter (y ∷ ys) + 1)) (shorter ys + cost x y)

abbrev pub distance : Bytes → Bytes → ℕ
distance [] ys = length ys
distance (x ∷ xs) ys = extend x (λ zs. distance xs zs) ys

-- The characters of the first, last first, before the second.
abbrev pub onto : Bytes → Bytes → Bytes
onto [] done = done
onto (c ∷ cs) done = onto cs (c ∷ done)

-- A row of the table for what a function says of each prefix.
abbrev row_of : (Bytes → ℕ) → Bytes → Bytes → List ℕ
row_of f done [] = f done ∷ []
row_of f done (c ∷ cs) = f done ∷ row_of f (c ∷ done) cs

abbrev behind : (Bytes → ℕ) → Bytes → Bytes → List ℕ
behind f done [] = []
behind f done (c ∷ cs) = row_of f (c ∷ done) cs

row_of-behind : (f : Bytes → ℕ) (done cs : Bytes) → row_of f done cs ≡ f done ∷ behind f done cs
row_of-behind f done [] = refl
row_of-behind f done (c ∷ cs) = refl

range_row : (done cs : Bytes) → range (length done) (length cs) ≡ row_of (λ ys. length ys) done cs
range_row done [] = refl
range_row done (c ∷ cs) = rw (range_row (c ∷ done) cs) refl

fill_row_lem :
    (ca : ℕ) (f : Bytes → ℕ) (done cs : Bytes)
    → fill_row ca (extend ca f done) (f done) cs (behind f done cs) ≡ behind (extend ca f) done cs
unfolding fill_row
fill_row_lem ca f done [] = refl
fill_row_lem ca f done (c ∷ cs) =
    rw
      (
        row_of-behind f (c ∷ done) cs,
        row_of-behind (extend ca f) (c ∷ done) cs,
        fill_row_lem ca f (c ∷ done) cs,
      )
      refl

distance-nil : (xs : Bytes) → distance xs [] ≡ length xs
distance-nil [] = refl
distance-nil (x ∷ xs) = omega (arith, distance-nil xs)

rows_lem :
    (a xs b : Bytes)
    → rows (length xs) a b (row_of (distance xs) [] b) ≡ row_of (distance (onto a xs)) [] b
unfolding rows
rows_lem [] xs b = refl
rows_lem (ca ∷ a) xs b =
    let next : next_row (length xs) ca b (row_of (distance xs) [] b)
        ≡ row_of (distance (ca ∷ xs)) [] b =
      rw
        (
          row_of-behind (distance xs) [] b,
          row_of-behind (distance (ca ∷ xs)) [] b,
          ← distance-nil xs,
          fill_row_lem ca (distance xs) [] b,
        )
        refl in
    let one_more : length xs + 1 ≡ length (ca ∷ xs) = omega arith in
    rw (next, one_more) (rows_lem a (ca ∷ xs) b)

get_elem-row_of :
    (f : Bytes → ℕ) (done cs : Bytes)
    → get_elem? (row_of f done cs) (length cs) ≡ some (f (onto cs done))
get_elem-row_of f done [] = refl
get_elem-row_of f done (c ∷ cs) = get_elem-row_of f (c ∷ done) cs

length-onto : (cs done : Bytes) → length (onto cs done) ≡ length cs + length done
length-onto [] done = omega arith
length-onto (c ∷ cs) done = omega (arith, length-onto cs (c ∷ done))

table_end :
    (a b : Bytes)
    → get_elem? (rows 0 a b (range 0 (length b))) (length b)
      ≡ some (distance (onto a []) (onto b []))
table_end a b =
    let first : range 0 (length b) ≡ row_of (distance []) [] b = range_row [] b in
    let last : rows 0 a b (row_of (distance []) [] b) ≡ row_of (distance (onto a [])) [] b =
      rows_lem a [] b in
    rw (first, last) (get_elem-row_of (distance (onto a [])) [] b)

-- levenshtein_lc reads no row out of range, and returns the edit distance.
pub levenshtein_lc_lem :
    (a b : Bytes) → levenshtein_lc a b ≡ some (distance (onto a []) (onto b []))
unfolding levenshtein_lc
levenshtein_lc_lem [] b =
    let e : length b ≡ length (onto b []) = omega (arith, length-onto b []) in rw (← e) refl
levenshtein_lc_lem (ca ∷ a) [] =
    let e : distance (onto (ca ∷ a) []) [] ≡ length (ca ∷ a) =
      omega (arith, length-onto (ca ∷ a) [], distance-nil (onto (ca ∷ a) [])) in
    rw e refl
levenshtein_lc_lem (ca ∷ a) (cb ∷ b) = table_end (ca ∷ a) (cb ∷ b)
