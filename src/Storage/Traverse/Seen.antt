-- ===== src/Storage/Traverse/Seen.antt =====
-- The nodes that a breadth-first search has seen, with the depths at which they entered the queue.
use graphdblite.Base.{
  ℕ, ◌≤◌, ◌≡◌, refl, inl, inr, true, List, [], ◌∷◌, ◌++◌, arith, contains, ◌==◌, ==_iff,
  if◌then◌else◌, Bool-cases,
}
use graphdblite.Storage.Traverse.Walks.{Has, firsts, contains-firsts}

-- The depths do not fall along the queue.
abbrev pub Ordered : ℕ → List (ℕ × ℕ) → Type 0
Ordered low [] = Unit {0}
Ordered low ((n, d) ∷ q) = (low ≤ d) × Ordered d q

pub Ordered-append :
    (low n d : ℕ) (q : List (ℕ × ℕ))
    → Ordered low q
    → low ≤ d
    → ((m e : ℕ) → Has m e q → e ≤ d)
    → Ordered low (q ++ (n, d) ∷ [])
Ordered-append low n d [] o le h = (le, tt)
Ordered-append low n d ((m, e) ∷ q) (a, o) le h =
    (a, Ordered-append e n d q o (h m e (inl (refl, refl))) (λ m' e' x. h m' e' (inr x)))

-- A node enters the list when it is seen for the first time.
abbrev pub mark : ℕ → ℕ → List (ℕ × ℕ) → List (ℕ × ℕ)
mark n d seen = if contains (firsts seen) n then seen else (n, d) ∷ seen

abbrev pub mark_all : ℕ → List ℕ → List (ℕ × ℕ) → List (ℕ × ℕ)
mark_all d [] seen = seen
mark_all d (n ∷ ns) seen = mark_all d ns (mark n d seen)

pub mark-keeps : (n d m e : ℕ) (seen : List (ℕ × ℕ)) → Has m e seen → Has m e (mark n d seen)
mark-keeps n d m e seen h = elim (Bool-cases (contains (firsts seen) n)) [
  | inl old ↦ rw old h
  | inr new ↦ rw new (inr h)
]

pub mark_all-keeps :
    (d : ℕ) (ns : List ℕ) (m e : ℕ) (seen : List (ℕ × ℕ))
    → Has m e seen
    → Has m e (mark_all d ns seen)
mark_all-keeps d [] m e seen h = h
mark_all-keeps d (n ∷ ns) m e seen h =
    mark_all-keeps d ns m e (mark n d seen) (mark-keeps n d m e seen h)

-- Seen at that depth or before.
abbrev pub SeenBy : ℕ → ℕ → List (ℕ × ℕ) → Type 0
SeenBy k n seen = (e : ℕ) × Has n e seen × (e ≤ k)

mark-SeenBy :
    (n d : ℕ) (seen : List (ℕ × ℕ))
    → ((m e : ℕ) → Has m e seen → e ≤ d)
    → SeenBy d n (mark n d seen)
mark-SeenBy n d seen low = elim (Bool-cases (contains (firsts seen) n)) [
  | inl old ↦ let (e, h) = contains-firsts n seen old in (e, rw old h, low n e h)
  | inr new ↦ (d, rw new (inl (refl, refl)), omega arith)
]

pub mark-low :
    (n d : ℕ) (seen : List (ℕ × ℕ))
    → ((m e : ℕ) → Has m e seen → e ≤ d)
    → (m e : ℕ) → Has m e (mark n d seen)
    → e ≤ d
mark-low n d seen low m e = elim (Bool-cases (contains (firsts seen) n)) [
  | inl old ↦ rw old (low m e)
  | inr new ↦ rw new (λ h. elim h [ inl (a, b) ↦ omega arith | inr x ↦ low m e x ])
]

pub mark_all-SeenBy :
    (d : ℕ) (ns : List ℕ) (seen : List (ℕ × ℕ))
    → ((m e : ℕ) → Has m e seen → e ≤ d)
    → (n : ℕ) → contains ns n ≡ true
    → SeenBy d n (mark_all d ns seen)
mark_all-SeenBy d [] seen low n h = cc
mark_all-SeenBy d (m ∷ ns) seen low n h = elim (Bool-cases (m == n)) [
  | inl same ↦
      let (e, x, le) = mark-SeenBy m d seen low in
      rw (← (==_iff m n).0 same) (e, mark_all-keeps d ns m e (mark m d seen) x, le)
  | inr other ↦ mark_all-SeenBy d ns (mark m d seen) (mark-low m d seen low) n (rw other at h)
]
