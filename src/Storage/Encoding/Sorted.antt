-- ===== src/Storage/Encoding/Sorted.antt =====
-- `insert_into_sorted` and `remove_from_sorted` on a sorted list without duplicates.
use graphdblite.Base.{
  ℕ, suc, ◌≤◌, ◌<◌, ◌≡◌, refl, sym, ◌∙◌, false, not, ◌&&◌, ◌||◌, List, [], ◌∷◌, arith, ltb, ◌==◌,
  if◌then◌else◌, contains,
}
use graphdblite.Storage.Encoding.{
  IsU64, Search, found, missing, is_found, binary_search, remove_at, insert_into_sorted,
  remove_from_sorted,
}
use graphdblite.Storage.Encoding.Idlist.{Climbs}

-- Strictly rising items from `lo` on, each a `u64`.
abbrev pub Rises : ℕ → List ℕ → Type 0
Rises lo [] = Unit {0}
Rises lo (id ∷ ids) = (lo ≤ id) × IsU64 id × Rises (suc id) ids

pub Rises-Climbs : (lo : ℕ) (ids : List ℕ) → Rises lo ids → Climbs lo ids
Rises-Climbs lo [] h = tt
Rises-Climbs lo (id ∷ ids) (a, b, h) = (a, b, weaken ids (Rises-Climbs (suc id) ids h))
  where
    weaken : (l : List ℕ) → Climbs (suc id) l → Climbs id l
    weaken [] c = tt
    weaken (x ∷ l) (p, c, more) = (omega arith, c, more)

pub Rises-weaken : (lo lo' : ℕ) (ids : List ℕ) → lo' ≤ lo → Rises lo ids → Rises lo' ids
Rises-weaken lo lo' [] le h = tt
Rises-weaken lo lo' (id ∷ ids) le (a, b, h) = (omega arith, b, h)

-- What lies below the first item is not in the list.
pub contains_below : (lo y : ℕ) (ids : List ℕ) → Rises lo ids → y < lo → contains ids y ≡ false
contains_below lo y [] h lt = refl
contains_below lo y (id ∷ ids) (a, b, h) lt = ground (arith, contains_below (suc id) y ids h)

-- The same operations by recursion on the list.
abbrev insert_sorted : List ℕ → ℕ → List ℕ
insert_sorted [] id = id ∷ []
insert_sorted (x ∷ xs) id =
    let more = insert_sorted xs id in
    if ltb x id then x ∷ more else if x == id then x ∷ xs else id ∷ x ∷ xs

abbrev remove_sorted : List ℕ → ℕ → List ℕ
remove_sorted [] id = []
remove_sorted (x ∷ xs) id =
    let more = remove_sorted xs id in if ltb x id then x ∷ more else if x == id then xs else x ∷ xs

insert_into_sorted-eq : (ids : List ℕ) (id : ℕ) → insert_into_sorted ids id ≡ insert_sorted ids id
unfolding insert_into_sorted
insert_into_sorted-eq [] id = refl
insert_into_sorted-eq (x ∷ xs) id = ground (arith, insert_into_sorted-eq xs id)

remove_from_sorted-eq :
    (ids : List ℕ) (id : ℕ) → (remove_from_sorted ids id).0 ≡ remove_sorted ids id
unfolding remove_from_sorted
remove_from_sorted-eq [] id = refl
remove_from_sorted-eq (x ∷ xs) id = ground (arith, remove_from_sorted-eq xs id)

Rises-insert_sorted :
    (lo : ℕ) (ids : List ℕ) (id : ℕ)
    → lo ≤ id
    → IsU64 id
    → Rises lo ids
    → Rises lo (insert_sorted ids id)
Rises-insert_sorted lo [] id le fits h = (le, fits, tt)
Rises-insert_sorted lo (x ∷ xs) id le fits (a, b, h) =
    ground (arith, Rises-insert_sorted (suc x) xs id)

contains-insert_sorted :
    (ids : List ℕ) (id y : ℕ) → contains (insert_sorted ids id) y ≡ (id == y || contains ids y)
contains-insert_sorted [] id y = refl
contains-insert_sorted (x ∷ xs) id y = ground (arith, contains-insert_sorted xs id y)

Rises-remove_sorted :
    (lo : ℕ) (ids : List ℕ) (id : ℕ) → Rises lo ids → Rises lo (remove_sorted ids id)
Rises-remove_sorted lo [] id h = tt
Rises-remove_sorted lo (x ∷ xs) id (a, b, h) =
    ground (arith, Rises-remove_sorted (suc x) xs id, Rises-weaken (suc x) lo xs)

contains-remove_sorted :
    (lo : ℕ) (ids : List ℕ) (id y : ℕ)
    → Rises lo ids
    → contains (remove_sorted ids id) y ≡ (contains ids y && not (id == y))
contains-remove_sorted lo [] id y h = refl
contains-remove_sorted lo (x ∷ xs) id y (a, b, h) = ground (
  arith,
  contains-remove_sorted (suc x) xs id y,
  contains_below (suc x) y xs,
  contains_below (suc x) id xs,
)

remove_flag :
    (lo : ℕ) (ids : List ℕ) (id : ℕ)
    → Rises lo ids
    → (remove_from_sorted ids id).1 ≡ contains ids id
unfolding remove_from_sorted
remove_flag lo [] id h = refl
remove_flag lo (x ∷ xs) id (a, b, h) =
    ground (arith, remove_flag (suc x) xs id, contains_below (suc x) id xs)

-- A list from which nothing was removed comes back as it was.
pub remove_unchanged :
    (ids : List ℕ) (id : ℕ)
    → (remove_from_sorted ids id).1 ≡ false
    → (remove_from_sorted ids id).0 ≡ ids
unfolding remove_from_sorted
remove_unchanged [] id h = refl
remove_unchanged (x ∷ xs) id h = ground (arith, remove_unchanged xs id)

-- Inserting keeps the list sorted and without duplicates, and adds exactly the new item.
pub insert_into_sorted_lem :
    (ids : List ℕ) (id : ℕ)
    → Rises 0 ids
    → IsU64 id
    → Rises 0 (insert_into_sorted ids id)
      × ((y : ℕ) → contains (insert_into_sorted ids id) y ≡ (id == y || contains ids y))
insert_into_sorted_lem ids id h fits =
    rw (insert_into_sorted-eq ids id)
      (Rises-insert_sorted 0 ids id (omega arith) fits h, contains-insert_sorted ids id)

-- Removing keeps the list sorted and without duplicates, takes exactly that item out, and reports
-- whether it was there.
pub remove_from_sorted_lem :
    (ids : List ℕ) (id : ℕ)
    → Rises 0 ids
    → Rises 0 (remove_from_sorted ids id).0
      × ((y : ℕ) → contains (remove_from_sorted ids id).0 y ≡ (contains ids y && not (id == y)))
      × ((remove_from_sorted ids id).1 ≡ contains ids id)
remove_from_sorted_lem ids id h = rw (remove_from_sorted-eq ids id) (
  Rises-remove_sorted 0 ids id h,
  λ y. contains-remove_sorted 0 ids id y h,
  remove_flag 0 ids id h,
)

-- On a sorted list without duplicates the binary search finds exactly the items of the list.
pub binary_search_lem :
    (ids : List ℕ) (id : ℕ) → Rises 0 ids → is_found (binary_search ids id) ≡ contains ids id
unfolding remove_from_sorted
binary_search_lem ids id h = sym (flag (binary_search ids id)) ∙ (remove_from_sorted_lem ids id h).2
  where
    flag : (found_at : Search) → (remove_at found_at ids).1 ≡ is_found found_at
    flag (found pos) = refl
    flag (missing pos) = refl
