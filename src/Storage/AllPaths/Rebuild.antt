-- ===== src/Storage/AllPaths/Rebuild.antt =====
-- storage/edge.rs: the paths that all_shortest_paths rebuilds from the parents.
use graphdblite.Base.{
  ℕ, zero, suc, ◌+◌, ◌≤◌, ◌≡◌, ◌⊎◌, inl, inr, refl, sym, subst, true, false, some, List, [], ◌∷◌,
  ◌++◌, append_assoc, All-append, contains, ◌==◌, ==_iff, All, Bool-cases, arith,
}
use mathlib.Core.List.{append-nil}
use graphdblite.Types.Error.{Result}
use graphdblite.Storage.Traverse.Walks.{Next}
use graphdblite.Storage.AllPaths.{depth_at, parents_at, push_all, rebuild}
use graphdblite.Storage.AllPaths.Graded.{IsGraded, IsParent}
use graphdblite.Storage.AllPaths.Ends.{with_fuel}

-- The nodes of a walk of so many hops, the first and the last with them.
abbrev pub IsRoute : (ℕ → Result (List ℕ)) → ℕ → ℕ → ℕ → List ℕ → Type 0
IsRoute near a b zero path = (path ≡ a ∷ []) × (a ≡ b)
IsRoute near a b (suc k) path =
    (m : ℕ) × (rest : List ℕ) × (path ≡ a ∷ rest) × Next near a m × IsRoute near m b k rest

abbrev pub IsMember : List ℕ → List (List ℕ) → Type 0
IsMember x [] = ⊥
IsMember x (y ∷ ys) = (y ≡ x) ⊎ IsMember x ys

IsMember-left : (x : List ℕ) (xs ys : List (List ℕ)) → IsMember x xs → IsMember x (xs ++ ys)
IsMember-left x [] ys h = elim h [ ]
IsMember-left x (y ∷ xs) ys (inl e) = inl e
IsMember-left x (y ∷ xs) ys (inr h) = inr (IsMember-left x xs ys h)

IsMember-right : (x : List ℕ) (xs ys : List (List ℕ)) → IsMember x ys → IsMember x (xs ++ ys)
IsMember-right x [] ys h = h
IsMember-right x (y ∷ xs) ys h = inr (IsMember-right x xs ys h)

-- A path, longer by the parents of its first node up to the start.
abbrev pub Climbs : ℕ → List (ℕ × List ℕ) → ℕ → ℕ → List ℕ → List ℕ → Type 0
Climbs start parents zero node path whole = (node ≡ start) × (path ≡ whole)
Climbs start parents (suc d) node path whole =
    (p : ℕ) × (contains (parents_at node parents) p ≡ true)
    × Climbs start parents d p (p ∷ path) whole

module _ (near : ℕ → Result (List ℕ)) (start end max_hops : ℕ) (parents : List (ℕ × List ℕ))
    (depths : List (ℕ × ℕ)) (g : IsGraded near start max_hops parents depths) where
  -- Items on the stack are worked off at a cost: the paths that they add are routes from the start,
  -- and hold what is wanted.
  abbrev Expands : ℕ → (List ℕ → Type 0) → (List (ℕ × List ℕ) → List (ℕ × List ℕ)) → Type 0
  Expands total wanted items =
      (cost : ℕ) × (outs : List (List ℕ)) × All (IsRoute near start end total) outs
      × ((whole : List ℕ) → wanted whole → IsMember whole outs)
      × ((k : ℕ) (paths : List (List ℕ)) (stack : List (ℕ × List ℕ)) (r : List (List ℕ))
          → ((fuel : ℕ) → k ≤ fuel → rebuild fuel start parents (paths ++ outs) stack ≡ some r)
          → (fuel : ℕ) → cost + k ≤ fuel
          → rebuild fuel start parents paths (items stack) ≡ some r)

  -- One node of a depth with a route to the end.
  abbrev ExpandsAt : ℕ → Type 0
  ExpandsAt d =
      (node j total : ℕ) (path : List ℕ)
      → d + j ≡ total
      → depth_at node depths ≡ some d
      → IsRoute near node end j path
      → Expands total (Climbs start parents d node path) (λ stack. (node, path) ∷ stack)

  start-ExpandsAt : ExpandsAt zero
  unfolding rebuild
  start-ExpandsAt node j total path sum known route =
      let here : node ≡ start = g.root node known in
      let all : j ≡ total = omega (arith, sum) in
      (
        1,
        path ∷ [],
        (
          subst (λ v. IsRoute near v end total path) here
              (subst (λ v. IsRoute near node end v path) all route),
          tt,
        ),
        λ whole c. inl c.1,
        λ k paths stack r done fuel enough.
            with_fuel (λ f. rebuild f start parents paths ((node, path) ∷ stack) ≡ some r) k
              (λ f more. rw ((==_iff node start).1 here) (done f more)) fuel (omega arith),
      )

  -- The parents of a node, as they stand on the stack.
  parents-Expands :
      (d node j total : ℕ) (path : List ℕ)
      → ExpandsAt d
      → suc d + j ≡ total
      → IsRoute near node end j path
      → (ps : List ℕ) → All (λ p. (depth_at p depths ≡ some d) × Next near p node) ps
      → Expands total
          (λ whole. (p : ℕ) × (contains ps p ≡ true) × Climbs start parents d p (p ∷ path) whole)
          (push_all ps path)
  parents-Expands d node j total path one sum route [] h = (
    0,
    [],
    tt,
    λ whole (p, c, climb). absurd (no_member p c),
    λ k paths stack r done fuel enough.
        subst (λ v. rebuild fuel start parents v stack ≡ some r) (append-nil paths)
          (done fuel (omega arith)),
  )
    where
      no_member : (p : ℕ) → contains [] p ≡ true → ⊥
      no_member p c = cc
  parents-Expands d node j total path one sum route (p ∷ ps) ((known, hop), h) =
      let (cost1, outs1, routes1, full1, run1) =
        one p (suc j) total (p ∷ path) (omega (arith, sum)) known (node, path, refl, hop, route) in
      let (cost2, outs2, routes2, full2, run2) =
        parents-Expands d node j total path one sum route ps h in
      (
        cost2 + cost1,
        outs2 ++ outs1,
        All-append (IsRoute near start end total) outs2 outs1 routes2 routes1,
        λ whole (q, c, climb). elim (Bool-cases (p == q)) [
          | inl same ↦ IsMember-right whole outs2 outs1 (
              full1 whole (
                subst (λ v. Climbs start parents d v (v ∷ path) whole) (sym ((==_iff p q).0 same))
                  climb))
          | inr other ↦ IsMember-left whole outs2 outs1 (full2 whole (q, (rw other at c), climb))
        ],
        λ k paths stack r done fuel enough.
            run2 (cost1 + k) paths ((p, p ∷ path) ∷ stack) r
              (λ f more.
                run1 k (paths ++ outs2) stack r
                  (λ f' more'. rw (append_assoc paths outs2 outs1) (done f' more')) f more)
              fuel (omega arith),
      )

  not_start : (node d : ℕ) → depth_at node depths ≡ some (suc d) → (node == start) ≡ false
  not_start node d known = elim (Bool-cases (node == start)) [
    | inl same ↦
        let e : node ≡ start = (==_iff node start).0 same in
        let rooted : depth_at node depths ≡ some 0 = rw e g.rooted in
        let clash : some (suc d) ≡ some 0 = cc in cc
    | inr other ↦ other
  ]

  parents_known :
      (d node : ℕ)
      → depth_at node depths ≡ some (suc d)
      → (ps : List ℕ) → ((p : ℕ) → contains ps p ≡ true → IsParent near depths node p)
      → All (λ p. (depth_at p depths ≡ some d) × Next near p node) ps
  parents_known d node known [] h = tt
  parents_known d node known (p ∷ ps) h =
      let parent = h p (rw ((==_iff p p).1 refl)) in
      let below = parent.below in
      let same : some (suc d) ≡ some (suc parent.depth) = cc in
      let depth : parent.depth ≡ d = ground arith in
      (
        (subst (λ v. depth_at p depths ≡ some v) depth parent.above, parent.hop),
        parents_known d node known ps (λ q c.
            h q (elim (Bool-cases (p == q)) [ inl same ↦ rw same | inr other ↦ rw (other, c) ])),
      )

  -- A node of any depth.
  pub ExpandsAt-every : (d : ℕ) → ExpandsAt d
  unfolding rebuild
  ExpandsAt-every zero = start-ExpandsAt
  ExpandsAt-every (suc d) = λ node j total path sum known route.
      let ps = parents_at node parents in
      let (cost, outs, routes, full, run) =
        parents-Expands d node j total path (ExpandsAt-every d) sum route ps
          (parents_known d node known ps (g.parent node)) in
      (
        suc cost,
        outs,
        routes,
        full,
        λ k paths stack r done fuel enough.
            with_fuel (λ f. rebuild f start parents paths ((node, path) ∷ stack) ≡ some r)
              (cost + k) (λ f more. rw (not_start node d known) (run k paths stack r done f more))
              fuel (omega arith),
      )
