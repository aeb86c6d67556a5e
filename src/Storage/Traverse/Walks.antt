-- ===== src/Storage/Traverse/Walks.antt =====
-- Walks along the answers of `get_neighbors`, and lists of nodes with their depths.
use graphdblite.Base.{
  ℕ, zero, suc, ◌+◌, ◌≡◌, refl, sym, ◌∙◌, IsDistinct, inl, inr, ◌⊎◌, true, List, [], ◌∷◌, ◌++◌,
  arith, contains, ◌==◌, ==_iff, Bool-cases,
}
use graphdblite.Types.Error.{Result, ok}

-- One hop.
abbrev pub Next : (ℕ → Result (List ℕ)) → ℕ → ℕ → Type 0
Next near m n = (ns : List ℕ) × (near m ≡ ok ns) × (contains ns n ≡ true)

-- A walk of so many hops from the start to a node.
abbrev pub Walk : (ℕ → Result (List ℕ)) → ℕ → ℕ → ℕ → Type 0
Walk near start zero n = start ≡ n
Walk near start (suc k) n = (m : ℕ) × Walk near start k m × Next near m n

pub Walk-add :
    (near : ℕ → Result (List ℕ)) (start d m n : ℕ)
    → Walk near start d m
    → Next near m n
    → Walk near start (d + 1) n
Walk-add near start d m n w hop = let e : d + 1 ≡ suc d = omega arith in rw e (m, w, hop)

-- The node stands in the list with that depth.
abbrev pub Has : ℕ → ℕ → List (ℕ × ℕ) → Type 0
Has n d [] = ⊥
Has n d ((m, e) ∷ l) = ((m ≡ n) × (e ≡ d)) ⊎ Has n d l

abbrev pub firsts : List (ℕ × ℕ) → List ℕ
firsts [] = []
firsts ((n, d) ∷ l) = n ∷ firsts l

pub Has-append :
    (n d m e : ℕ) (l : List (ℕ × ℕ)) → Has n d (l ++ (m, e) ∷ []) → Has n d l ⊎ ((m ≡ n) × (e ≡ d))
Has-append n d m e [] (inl h) = inr h
Has-append n d m e [] (inr h) = elim h [ ]
Has-append n d m e ((x, y) ∷ l) (inl h) = inl (inl h)
Has-append n d m e ((x, y) ∷ l) (inr h) = elim (Has-append n d m e l h) [
  | inl a ↦ inl (inr a)
  | inr b ↦ inr b
]

pub Has-append_old : (n d m e : ℕ) (l : List (ℕ × ℕ)) → Has n d l → Has n d (l ++ (m, e) ∷ [])
Has-append_old n d m e [] h = elim h [ ]
Has-append_old n d m e ((x, y) ∷ l) (inl h) = inl h
Has-append_old n d m e ((x, y) ∷ l) (inr h) = inr (Has-append_old n d m e l h)

pub Has-append_new : (n d : ℕ) (l : List (ℕ × ℕ)) → Has n d (l ++ (n, d) ∷ [])
Has-append_new n d [] = inl (refl, refl)
Has-append_new n d ((x, y) ∷ l) = inr (Has-append_new n d l)

pub firsts-append : (l : List (ℕ × ℕ)) (n d : ℕ) → firsts (l ++ (n, d) ∷ []) ≡ firsts l ++ n ∷ []
firsts-append [] n d = refl
firsts-append ((m, e) ∷ l) n d = rw (firsts-append l n d)

-- A node of the list stands in it with some depth, and the other way round.
pub contains-firsts :
    (n : ℕ) (l : List (ℕ × ℕ)) → contains (firsts l) n ≡ true → (d : ℕ) × Has n d l
contains-firsts n [] h = cc
contains-firsts n ((m, e) ∷ l) h = elim (Bool-cases (m == n)) [
  | inl same ↦ (e, inl ((==_iff m n).0 same, refl))
  | inr other ↦ let (d, a) = contains-firsts n l (rw other at h) in (d, inr a)
]

pub Has-firsts : (n d : ℕ) (l : List (ℕ × ℕ)) → Has n d l → contains (firsts l) n ≡ true
Has-firsts n d [] h = elim h [ ]
Has-firsts n d ((m, e) ∷ l) (inl h) = ground arith
Has-firsts n d ((m, e) ∷ l) (inr h) = ground (arith, Has-firsts n d l h)

-- A list without repetition has one depth for a node.
pub Has-once :
    (n d e : ℕ) (l : List (ℕ × ℕ)) → IsDistinct (firsts l) → Has n d l → Has n e l → d ≡ e
Has-once n d e [] h a b = elim a [ ]
Has-once n d e ((m, x) ∷ l) (fresh, h) (inl (_, a)) (inl (_, b)) = sym a ∙ b
Has-once n d e ((m, x) ∷ l) (fresh, h) (inl (same, a)) (inr b) =
    let there = Has-firsts n e l b in absurd cc
Has-once n d e ((m, x) ∷ l) (fresh, h) (inr a) (inl (same, b)) =
    let there = Has-firsts n d l a in absurd cc
Has-once n d e ((m, x) ∷ l) (fresh, h) (inr a) (inr b) = Has-once n d e l h a b
