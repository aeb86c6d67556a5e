-- ===== src/Storage/AllPaths/Growth.antt =====
-- storage/edge.rs: what stays known in all_shortest_paths, and what one neighbour adds.
use graphdblite.Base.{
  ℕ, suc, ◌≤◌, ◌≡◌, ◌⊎◌, inl, inr, true, some, List, [], ◌∷◌, ◌++◌, contains, ◌==◌, Bool-cases,
  arith,
}
use graphdblite.Storage.Traverse.Walks.{Has}
use graphdblite.Storage.AllPaths.{Levels, depth_at, parents_at}

-- The queue is sorted by depth, within these bounds.
abbrev pub IsSorted : ℕ → ℕ → List (ℕ × ℕ) → Type 0
IsSorted low high [] = Unit {0}
IsSorted low high ((n, d) ∷ queue) = (low ≤ d) × (d ≤ high) × IsSorted d high queue

pub IsSorted-snoc :
    (low high n : ℕ) (queue : List (ℕ × ℕ))
    → low ≤ high
    → IsSorted low high queue
    → IsSorted low high (queue ++ (n, high) ∷ [])
IsSorted-snoc low high n [] le h = (le, omega arith, tt)
IsSorted-snoc low high n ((m, d) ∷ queue) le (from, to, h) =
    (from, to, IsSorted-snoc d high n queue to h)

pub IsSorted-higher :
    (low high more : ℕ) (queue : List (ℕ × ℕ))
    → high ≤ more
    → IsSorted low high queue
    → IsSorted low more queue
IsSorted-higher low high more [] le h = tt
IsSorted-higher low high more ((m, d) ∷ queue) le (from, to, h) =
    (from, omega (arith, to, le), IsSorted-higher d high more queue le h)

-- What is known stays known.
pub record Grows (st st' : Levels) : Type 0 where
  pub depths : (m e : ℕ) → depth_at m st.depth_of ≡ some e → depth_at m st'.depth_of ≡ some e
  pub parents :
      (m e p : ℕ)
      → depth_at m st.depth_of ≡ some e
      → contains (parents_at m st.parents) p ≡ true
      → contains (parents_at m st'.parents) p ≡ true
  pub found : (f : ℕ) → st.found_depth ≡ some f → st'.found_depth ≡ some f
  pub queued : (m e : ℕ) → Has m e st.queue → Has m e st'.queue

-- While a node of some depth is worked on: the queue holds that depth and the next, no depth is
-- above the next, and the depth found is the one of the end.
pub record IsFront (end depth : ℕ) (st : Levels) : Type 0 where
  pub sorted : IsSorted depth (suc depth) st.queue
  pub top : (m e : ℕ) → depth_at m st.depth_of ≡ some e → e ≤ suc depth
  pub found_is : depth_at end st.depth_of ≡ st.found_depth

-- The neighbour has a depth, at most one more, and the node as a parent where it is one more.
abbrev pub IsLinked : Levels → ℕ → ℕ → ℕ → Type 0
IsLinked st depth current m =
    (e : ℕ) × (depth_at m st.depth_of ≡ some e)
    × (e ≤ suc depth)
    × (e ≡ suc depth → contains (parents_at m st.parents) current ≡ true)

pub IsLinked-Grows :
    (st st' : Levels) (depth current m : ℕ)
    → Grows st st'
    → IsLinked st depth current m
    → IsLinked st' depth current m
IsLinked-Grows st st' depth current m g (e, known, le, parent) =
    (e, g.depths m e known, le, λ same. g.parents m e current known (parent same))

-- The search will go no further than a node of this depth.
abbrev pub IsPast : Levels → ℕ → Type 0
IsPast st depth = (f : ℕ) × (st.found_depth ≡ some f) × (f ≤ depth)

-- The neighbours are linked, and each new node is in the queue or past the end.
pub record IsStep (end current depth : ℕ) (ns : List ℕ) (st st' : Levels) : Type 0 where
  pub grows : Grows st st'
  pub front : IsFront end depth st'
  pub linked : (m : ℕ) → contains ns m ≡ true → IsLinked st' depth current m
  pub fresh :
      (m e : ℕ)
      → depth_at m st'.depth_of ≡ some e
      → (depth_at m st.depth_of ≡ some e) ⊎ (Has m e st'.queue ⊎ IsPast st' e)

Grows-trans : (a b c : Levels) → Grows a b → Grows b c → Grows a c
Grows-trans a b c g h = record {
  depths = λ m e known. h.depths m e (g.depths m e known);
  parents = λ m e p known there. h.parents m e p (g.depths m e known) (g.parents m e p known there);
  found = λ f there. h.found f (g.found f there);
  queued = λ m e there. h.queued m e (g.queued m e there);
}

module _ (end current depth : ℕ) where
  pub no-IsStep : (st : Levels) → IsFront end depth st → IsStep end current depth [] st st
  no-IsStep st front = record {
    grows = record {
      depths = λ m e known. known;
      parents = λ m e p known there. there;
      found = λ f there. there;
      queued = λ m e there. there;
    };
    front = front;
    linked = λ m h. cc;
    fresh = λ m e known. inl known;
  }

  pub IsStep-more :
      (n : ℕ) (ns : List ℕ) (a b c : Levels)
      → IsStep end current depth (n ∷ []) a b
      → IsStep end current depth ns b c
      → IsStep end current depth (n ∷ ns) a c
  IsStep-more n ns a b c one more = record {
    grows = Grows-trans a b c one.grows more.grows;
    front = more.front;
    linked = λ m h. elim (Bool-cases (n == m)) [
      | inl same ↦ IsLinked-Grows b c depth current m more.grows (one.linked m (rw same))
      | inr other ↦ more.linked m (rw other at h)
    ];
    fresh = λ m e known. elim (more.fresh m e known) [
      | inl old ↦ elim (one.fresh m e old) [
        | inl older ↦ inl older
        | inr (inl queued) ↦ inr (inl (more.grows.queued m e queued))
        | inr (inr (f, found, le)) ↦ inr (inr (f, more.grows.found f found, le))
      ]
      | inr new ↦ inr new
    ];
  }
