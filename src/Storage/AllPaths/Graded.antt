-- ===== src/Storage/AllPaths/Graded.antt =====
-- storage/edge.rs: the parents that all_shortest_paths keeps lie one hop before their node.
use graphdblite.Base.{
  ℕ, suc, ◌≤◌, ◌≡◌, inl, inr, subst, true, not, ◌&&◌, none, some, List, [], ◌∷◌, ◌++◌, contains,
  ◌==◌, ==_iff, if◌then◌else◌, All, Bool-cases, Option-cases, arith,
}
use graphdblite.Types.Error.{Result, ok}
use graphdblite.Storage.Traverse.Walks.{Next, Walk}
use graphdblite.Storage.AllPaths.{
  Levels, depth_at, parents_at, push_parent, first_visit, again, level, is_none,
}
use graphdblite.Storage.AllPaths.Depths.{
  depth_at-cons, depth_at_self, parents_at-push_parent, contains-snoc, only, level-fresh,
  level-again, IsQueued, IsQueued-cons, IsQueued-snoc,
}

-- A parent has a depth of its own and its child one more, and the child is one of its neighbours.
pub record IsParent (near : ℕ → Result (List ℕ)) (depths : List (ℕ × ℕ)) (n p : ℕ) : Type 0 where
  pub depth : ℕ
  pub above : depth_at p depths ≡ some depth
  pub below : depth_at n depths ≡ some (suc depth)
  pub hop : Next near p n

-- The start has depth 0 and no other node, a node of a depth ends a walk of that many hops, no depth is above the bound, and the parents are parents.
pub record IsGraded (near : ℕ → Result (List ℕ)) (start max_hops : ℕ) (parents : List (ℕ × List ℕ))
    (depths : List (ℕ × ℕ)) : Type 0 where
  pub rooted : depth_at start depths ≡ some 0
  pub root : (n : ℕ) → depth_at n depths ≡ some 0 → n ≡ start
  pub reached : (n d : ℕ) → depth_at n depths ≡ some d → Walk near start d n
  pub bounded : (n d : ℕ) → depth_at n depths ≡ some d → d ≤ max_hops
  pub parent : (n p : ℕ) → contains (parents_at n parents) p ≡ true → IsParent near depths n p

module _ (near : ℕ → Result (List ℕ)) (start end max_hops : ℕ) where
  -- The state of a level: it is graded, and its queue holds nodes with their depths.
  abbrev pub IsLevel : Levels → Type 0
  IsLevel st = IsGraded near start max_hops st.parents st.depth_of × IsQueued st.depth_of st.queue

  IsParent-cons :
      (n k m p : ℕ) (depths : List (ℕ × ℕ))
      → depth_at n depths ≡ none
      → IsParent near depths m p
      → IsParent near ((n, k) ∷ depths) m p
  IsParent-cons n k m p depths fresh h = record {
    depth = h.depth;
    above = depth_at-cons n k p h.depth depths fresh h.above;
    below = depth_at-cons n k m (suc h.depth) depths fresh h.below;
    hop = h.hop;
  }

  module _ (current depth n : ℕ) (hop : Next near current n) (shallow : suc depth ≤ max_hops) where
    as-IsParent :
        (m p : ℕ) (depths : List (ℕ × ℕ))
        → n ≡ m
        → current ≡ p
        → depth_at current depths ≡ some depth
        → depth_at n depths ≡ some (suc depth)
        → IsParent near depths m p
    as-IsParent m p depths e f above below =
        subst (λ v. IsParent near depths v p) e
          (subst (λ v. IsParent near depths n v) f
            (record { depth = depth; above = above; below = below; hop = hop }))

    first_visit-IsGraded :
        (st : Levels)
        → depth_at current st.depth_of ≡ some depth
        → depth_at n st.depth_of ≡ none
        → IsGraded near start max_hops st.parents st.depth_of
        → IsGraded near start max_hops
            ((n, current ∷ []) ∷ st.parents)
            ((n, suc depth) ∷ st.depth_of)
    first_visit-IsGraded st known fresh g = record {
      rooted = depth_at-cons n (suc depth) start 0 st.depth_of fresh g.rooted;
      root = λ m e. elim (Bool-cases (n == m)) [
        | inl same ↦ let clash : some (suc depth) ≡ some 0 = rw same at e in cc
        | inr other ↦ g.root m (rw other at e)
      ];
      reached = λ m d e. elim (Bool-cases (n == m)) [
        | inl same ↦
            let known_depth : some (suc depth) ≡ some d = rw same at e in
            let same_depth : suc depth ≡ d = ground arith in
            subst (λ v. Walk near start v m) same_depth
              (subst (λ v. Walk near start (suc depth) v) ((==_iff n m).0 same)
                (current, g.reached current depth known, hop))
        | inr other ↦ g.reached m d (rw other at e)
      ];
      bounded = λ m d e. elim (Bool-cases (n == m)) [
        | inl same ↦ let known_depth : some (suc depth) ≡ some d = rw same at e in ground arith
        | inr other ↦ g.bounded m d (rw other at e)
      ];
      parent = λ m p e. elim (Bool-cases (n == m)) [
        | inl same ↦
            as-IsParent m p ((n, suc depth) ∷ st.depth_of) ((==_iff n m).0 same)
              (only current p (rw same at e))
              (depth_at-cons n (suc depth) current depth st.depth_of fresh known)
              (depth_at_self n (suc depth) st.depth_of)
        | inr other ↦
            IsParent-cons n (suc depth) m p st.depth_of fresh (g.parent m p (rw other at e))
      ];
    }

    again-IsGraded :
        (st : Levels)
        → depth_at current st.depth_of ≡ some depth
        → depth_at n st.depth_of ≡ some (suc depth)
        → IsGraded near start max_hops st.parents st.depth_of
        → IsGraded near start max_hops (push_parent n current st.parents) st.depth_of
    again-IsGraded st known there g = record {
      rooted = g.rooted;
      root = g.root;
      reached = g.reached;
      bounded = g.bounded;
      parent = λ m p e. pushed m p (rw (parents_at-push_parent n current m st.parents) at e);
    }
      where
        pushed :
            (m p : ℕ)
            → contains
                (if n == m
                  then parents_at m st.parents ++ current ∷ []
                  else parents_at m st.parents)
                p
              ≡ true
            → IsParent near st.depth_of m p
        pushed m p e = elim (Bool-cases (n == m)) [
          | inl same ↦ elim (contains-snoc current p (parents_at m st.parents) (rw same at e)) [
            | inl old ↦ g.parent m p old
            | inr new ↦ as-IsParent m p st.depth_of ((==_iff n m).0 same) new known there
          ]
          | inr other ↦ g.parent m p (rw other at e)
        ]

    fresh-IsLevel :
        (st : Levels)
        → depth_at current st.depth_of ≡ some depth
        → depth_at n st.depth_of ≡ none
        → IsLevel st
        → IsLevel (first_visit end current (suc depth) n st)
    fresh-IsLevel st known fresh (g, q) =
        let graded = first_visit-IsGraded st known fresh g in
        let old = IsQueued-cons n (suc depth) st.depth_of st.queue fresh q in
        let more =
          IsQueued-snoc n (suc depth) ((n, suc depth) ∷ st.depth_of) st.queue
            (depth_at_self n (suc depth) st.depth_of) old in
        elim (Bool-cases (not (n == end) && is_none st.found_depth)) [
          | inl on ↦ (graded, rw on more)
          | inr off ↦ (graded, rw off old)
        ]

    again-IsLevel :
        (existing : ℕ) (st : Levels)
        → depth_at current st.depth_of ≡ some depth
        → depth_at n st.depth_of ≡ some existing
        → IsLevel st
        → IsLevel (again current (suc depth) n existing st)
          × (depth_at current (again current (suc depth) n existing st).depth_of ≡ some depth)
    again-IsLevel existing st known there (g, q) = elim (Bool-cases (existing == suc depth)) [
      | inl same ↦
          let e : existing ≡ suc depth = (==_iff existing (suc depth)).0 same in
          let at_depth : depth_at n st.depth_of ≡ some (suc depth) =
            subst (λ v. depth_at n st.depth_of ≡ some v) e there in
          rw same ((again-IsGraded st known at_depth g, q), known)
      | inr other ↦ rw other ((g, q), known)
    ]

  -- A level of the search keeps the state graded.
  pub level-IsLevel :
      (current depth : ℕ) (ns all : List ℕ) (st : Levels)
      → near current ≡ ok all
      → All (λ n. contains all n ≡ true) ns
      → suc depth ≤ max_hops
      → depth_at current st.depth_of ≡ some depth
      → IsLevel st
      → IsLevel (level end current (suc depth) ns st)
  level-IsLevel current depth [] all st e h shallow known l = unfold level in l
  level-IsLevel current depth (n ∷ ns) all st e (m, h) shallow known l =
      elim (Option-cases (depth_at n st.depth_of)) [
        | inl fresh ↦
            let here = fresh-IsLevel current depth n (all, e, m) shallow st known fresh l in
            let stays = depth_at-cons n (suc depth) current depth st.depth_of fresh known in
            rw (level-fresh end current (suc depth) n ns st fresh) (
              level-IsLevel current depth ns all (first_visit end current (suc depth) n st) e h
                shallow stays here)
        | inr (existing, there) ↦
            let (here, stays) =
              again-IsLevel current depth n (all, e, m) shallow existing st known there l in
            rw (level-again end current (suc depth) n existing ns st there) (
              level-IsLevel current depth ns all (again current (suc depth) n existing st) e h
                shallow stays here)
      ]
