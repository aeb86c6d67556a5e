-- ===== src/Storage/AllPaths/Steps.antt =====
-- storage/edge.rs: what a level of all_shortest_paths keeps and adds.
use graphdblite.Base.{
  ℕ, suc, ◌≡◌, ◌⊎◌, inl, inr, refl, subst, ◌∙◌, true, false, not, ◌&&◌, none, some, List, [], ◌∷◌,
  ◌++◌, contains, ◌==◌, ==_iff, Bool-cases, Option-cases, arith,
}
use graphdblite.Storage.Traverse.Walks.{Has, Has-append_old, Has-append_new}
use graphdblite.Storage.AllPaths.{
  Levels, depth_at, parents_at, push_parent, first_visit, again, level, is_none,
}
use graphdblite.Storage.AllPaths.Depths.{
  depth_at-cons, parents_at-push_parent, level-fresh, level-again,
}
use graphdblite.Storage.AllPaths.Growth.{
  IsSorted-snoc, Grows, IsFront, IsLinked, IsPast, IsStep, no-IsStep, IsStep-more,
}

module _ (end current depth : ℕ) where
  -- A node that had no depth is another than one that had.
  other_node :
      (n m e : ℕ) (depths : List (ℕ × ℕ))
      → depth_at n depths ≡ none
      → depth_at m depths ≡ some e
      → (n == m) ≡ false
  other_node n m e depths fresh known = elim (Bool-cases (n == m)) [
    | inl same ↦
        let there : depth_at m depths ≡ none =
          subst (λ v. depth_at v depths ≡ none) ((==_iff n m).0 same) fresh in
        cc
    | inr other ↦ other
  ]

  first-Grows :
      (n : ℕ) (st : Levels)
      → IsFront end depth st
      → depth_at n st.depth_of ≡ none
      → Grows st (first_visit end current (suc depth) n st)
  first-Grows n st front fresh = record {
    depths = λ m e known. depth_at-cons n (suc depth) m e st.depth_of fresh known;
    parents = λ m e p known there. rw (other_node n m e st.depth_of fresh known) there;
    found = λ f there. elim (Bool-cases (n == end)) [
      | inl same ↦
          let unseen : depth_at end st.depth_of ≡ none =
            subst (λ v. depth_at v st.depth_of ≡ none) ((==_iff n end).0 same) fresh in
          let is = front.found_is in cc
      | inr other ↦ rw other there
    ];
    queued = λ m e there. elim (Bool-cases (not (n == end) && is_none st.found_depth)) [
      | inl on ↦ rw on (Has-append_old m e n (suc depth) st.queue there)
      | inr off ↦ rw off there
    ];
  }

  first-IsFront :
      (n : ℕ) (st : Levels)
      → IsFront end depth st
      → depth_at n st.depth_of ≡ none
      → IsFront end depth (first_visit end current (suc depth) n st)
  first-IsFront n st front fresh = record {
    sorted = elim (Bool-cases (not (n == end) && is_none st.found_depth)) [
      | inl on ↦ rw on (IsSorted-snoc depth (suc depth) n st.queue (omega arith) front.sorted)
      | inr off ↦ rw off front.sorted
    ];
    top = λ m e known. elim (Bool-cases (n == m)) [
      | inl same ↦ let here : some (suc depth) ≡ some e = rw same at known in ground arith
      | inr other ↦ front.top m e (rw other at known)
    ];
    found_is = elim (Bool-cases (n == end)) [
      | inl same ↦ rw same
      | inr other ↦ rw other front.found_is
    ];
  }

  first-fresh :
      (n m e : ℕ) (st : Levels)
      → IsFront end depth st
      → depth_at m ((n, suc depth) ∷ st.depth_of) ≡ some e
      → (depth_at m st.depth_of ≡ some e)
        ⊎ (Has m e (first_visit end current (suc depth) n st).queue
            ⊎ IsPast (first_visit end current (suc depth) n st) e)
  first-fresh n m e st front known = elim (Bool-cases (n == m)) [
    | inr other ↦ inl (rw other at known)
    | inl same ↦
        let here : some (suc depth) ≡ some e = rw same at known in
        let depth_is : suc depth ≡ e = ground arith in
        inr (
          subst
            (λ v.
              Has v e (first_visit end current (suc depth) n st).queue
              ⊎ IsPast (first_visit end current (suc depth) n st) e)
            ((==_iff n m).0 same)
            (subst
              (λ v.
                Has n v (first_visit end current (suc depth) n st).queue
                ⊎ IsPast (first_visit end current (suc depth) n st) v)
              depth_is placed))
  ]
    where
      found_already :
          (f : ℕ)
          → st.found_depth ≡ some f
          → (n == end) ≡ false
          → Has n (suc depth) (first_visit end current (suc depth) n st).queue
            ⊎ IsPast (first_visit end current (suc depth) n st) (suc depth)
      found_already f found other =
          inr (f, (rw other found), front.top end f (front.found_is ∙ found))

      placed :
          Has n (suc depth) (first_visit end current (suc depth) n st).queue
          ⊎ IsPast (first_visit end current (suc depth) n st) (suc depth)
      placed = elim (Bool-cases (n == end)) [
        | inl same ↦ inr (suc depth, (rw same), omega arith)
        | inr other ↦ elim (Option-cases st.found_depth) [
          | inl unfound ↦ inl (rw (other, unfound) (Has-append_new n (suc depth) st.queue))
          | inr (f, found) ↦ found_already f found other
        ]
      ]

  first-IsStep :
      (n : ℕ) (st : Levels)
      → IsFront end depth st
      → depth_at n st.depth_of ≡ none
      → IsStep end current depth (n ∷ []) st (first_visit end current (suc depth) n st)
  first-IsStep n st front fresh = record {
    grows = first-Grows n st front fresh;
    front = first-IsFront n st front fresh;
    linked = λ m h. elim (Bool-cases (n == m)) [
      | inl same ↦
          (suc depth, rw same, omega arith, λ e. rw (same, (==_iff current current).1 refl))
      | inr other ↦ let clash : false ≡ true = rw other at h in cc
    ];
    fresh = λ m e known. first-fresh n m e st front known;
  }

  contains-snoc_old :
      (c p : ℕ) (xs : List ℕ) → contains xs p ≡ true → contains (xs ++ c ∷ []) p ≡ true
  contains-snoc_old c p [] h = cc
  contains-snoc_old c p (x ∷ xs) h = elim (Bool-cases (x == p)) [
    | inl same ↦ rw same
    | inr other ↦ rw (other, contains-snoc_old c p xs (rw other at h))
  ]

  contains-snoc_new : (c : ℕ) (xs : List ℕ) → contains (xs ++ c ∷ []) c ≡ true
  contains-snoc_new c [] = rw ((==_iff c c).1 refl)
  contains-snoc_new c (x ∷ xs) = elim (Bool-cases (x == c)) [
    | inl same ↦ rw same
    | inr other ↦ rw (other, contains-snoc_new c xs)
  ]

  push-Grows :
      (n m p : ℕ) (parents : List (ℕ × List ℕ))
      → contains (parents_at m parents) p ≡ true
      → contains (parents_at m (push_parent n current parents)) p ≡ true
  push-Grows n m p parents there = elim (Bool-cases (n == m)) [
    | inl same ↦
        rw (parents_at-push_parent n current m parents, same)
          (contains-snoc_old current p (parents_at m parents) there)
    | inr other ↦ rw (parents_at-push_parent n current m parents, other) there
  ]

  again-IsStep :
      (n existing : ℕ) (st : Levels)
      → IsFront end depth st
      → depth_at n st.depth_of ≡ some existing
      → IsStep end current depth (n ∷ []) st (again current (suc depth) n existing st)
  again-IsStep n existing st front known = elim (Bool-cases (existing == suc depth)) [
    | inl same ↦ rw same (record {
      grows = record {
        depths = λ m e there. there;
        parents = λ m e p there parent. push-Grows n m p st.parents parent;
        found = λ f there. there;
        queued = λ m e there. there;
      };
      front = record { sorted = front.sorted; top = front.top; found_is = front.found_is };
      linked = λ m h. elim (Bool-cases (n == m)) [
        | inl here ↦
            subst
              (λ v.
                IsLinked
                  (record {
                    parents = push_parent n current st.parents;
                    depth_of = st.depth_of;
                    queue = st.queue;
                    found_depth = st.found_depth;
                  })
                  depth current v)
              ((==_iff n m).0 here)
              (
                existing,
                known,
                front.top n existing known,
                λ e.
                    rw (parents_at-push_parent n current n st.parents, (==_iff n n).1 refl)
                      (contains-snoc_new current (parents_at n st.parents)),
              )
        | inr other ↦ let clash : false ≡ true = rw other at h in cc
      ];
      fresh = λ m e there. inl there;
    })
    | inr other ↦ rw other (record {
      grows = (no-IsStep end current depth st front).grows;
      front = front;
      linked = λ m h. elim (Bool-cases (n == m)) [
        | inl here ↦
            subst (λ v. IsLinked st depth current v) ((==_iff n m).0 here)
              (
                existing,
                known,
                front.top n existing known,
                λ e.
                    let clash : (existing == suc depth) ≡ true =
                      (==_iff existing (suc depth)).1 e in
                    cc,
              )
        | inr elsewhere ↦ let clash : false ≡ true = rw elsewhere at h in cc
      ];
      fresh = λ m e there. inl there;
    })
  ]

  -- A level links every neighbour.
  pub level-IsStep :
      (ns : List ℕ) (st : Levels)
      → IsFront end depth st
      → IsStep end current depth ns st (level end current (suc depth) ns st)
  level-IsStep [] st front = unfold level in no-IsStep end current depth st front
  level-IsStep (n ∷ ns) st front = elim (Option-cases (depth_at n st.depth_of)) [
    | inl fresh ↦
        let after = first_visit end current (suc depth) n st in
        let one = first-IsStep n st front fresh in
        rw (level-fresh end current (suc depth) n ns st fresh) (
          IsStep-more end current depth n ns st after (level end current (suc depth) ns after) one
            (level-IsStep ns after one.front))
    | inr (existing, there) ↦
        let after = again current (suc depth) n existing st in
        let one = again-IsStep n existing st front there in
        rw (level-again end current (suc depth) n existing ns st there) (
          IsStep-more end current depth n ns st after (level end current (suc depth) ns after) one
            (level-IsStep ns after one.front))
  ]
