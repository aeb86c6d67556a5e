-- ===== src/Storage/AllPaths/Shortest.antt =====
-- storage/edge.rs: the depths that all_shortest_paths ends with are distances.
use graphdblite.Base.{
  ℕ, zero, suc, ◌+◌, ◌≤◌, ◌≡◌, ◌⊎◌, inl, inr, refl, sym, ap, subst, ◌∙◌, true, some, List, [], ◌∷◌,
  contains, arith,
}
use graphdblite.Types.Error.{Result, ok}
use graphdblite.Storage.Traverse.Walks.{Next, Walk}
use graphdblite.Storage.AllPaths.{Levels, depth_at, parents_at}
use graphdblite.Storage.AllPaths.Rebuild.{IsRoute, Climbs}
use graphdblite.Storage.AllPaths.Complete.{IsFinished}

-- A route within the bound, and none is shorter.
abbrev pub IsShortest : (ℕ → Result (List ℕ)) → ℕ → ℕ → ℕ → List ℕ → Type 0
IsShortest near start end max_hops path =
    (k : ℕ) × (k ≤ max_hops)
    × IsRoute near start end k path
    × ((j : ℕ) (other : List ℕ) → IsRoute near start end j other → k ≤ j)

module _ (near : ℕ → Result (List ℕ)) (start end max_hops : ℕ) where
  -- A walk to the first node of a route makes it longer.
  pub Walk-IsRoute :
      (d j n : ℕ) (path : List ℕ)
      → Walk near start d n
      → IsRoute near n end j path
      → (whole : List ℕ) × IsRoute near start end (d + j) whole
  Walk-IsRoute zero j n path here route =
      let e : j ≡ zero + j = omega arith in
      (
        path,
        subst (λ v. IsRoute near start end v path) e
            (subst (λ v. IsRoute near v end j path) (sym here) route),
      )
  Walk-IsRoute (suc d) j n path (m, walk, hop) route =
      let (whole, longer) = Walk-IsRoute d (suc j) m (m ∷ path) walk (n, path, refl, hop, route) in
      let e : d + suc j ≡ suc d + j = omega arith in
      (whole, subst (λ v. IsRoute near start end v whole) e longer)

  module _ (st : Levels) (finished : IsFinished near end max_hops (ok st)) where
    -- What is known of a node on a route that is neither too long nor past the end.
    hop_linked :
        (n d m : ℕ)
        → depth_at n st.depth_of ≡ some d
        → Next near n m
        → suc d ≤ max_hops
        → ((f : ℕ) × (depth_at end st.depth_of ≡ some f) × (f ≤ d))
          ⊎ ((e : ℕ) × (depth_at m st.depth_of ≡ some e)
              × (e ≤ suc d)
              × (e ≡ suc d → contains (parents_at m st.parents) n ≡ true))
    hop_linked n d m known (ns, answer, there) le = elim (finished.0 n d known) [
      | inl far ↦ absurd (omega arith)
      | inr (inl (f, found, before)) ↦ inl (f, (finished.1 ∙ found), before)
      | inr (inr (all, same, linked)) ↦
          let oks : ok ns ≡ ok all = sym answer ∙ same in
          let lists : ns ≡ all = ground arith in
          inr (linked m (subst (λ v. contains v m ≡ true) lists there))
    ]

    -- The depth of the end is at most the length of a route on from a node.
    pub end_depth :
        (k n d : ℕ) (path : List ℕ)
        → depth_at n st.depth_of ≡ some d
        → IsRoute near n end k path
        → d + k ≤ max_hops
        → (e : ℕ) × (depth_at end st.depth_of ≡ some e) × (e ≤ d + k)
    end_depth zero n d path known (e, here) le =
        (d, subst (λ v. depth_at v st.depth_of ≡ some d) here known, omega arith)
    end_depth (suc k) n d path known (m, rest, e, hop, route) le =
        elim (hop_linked n d m known hop (omega arith)) [
          | inl (f, found, before) ↦ (f, found, omega (arith, before))
          | inr (e, there, shallow, parent) ↦
              let (f, found, before) = end_depth k m e rest there route (omega (arith, shallow)) in
              (f, found, omega (arith, before, shallow))
        ]

    -- A shortest route climbs up the parents.
    pub climbs :
        (h : ℕ)
        → depth_at end st.depth_of ≡ some h
        → h ≤ max_hops
        → (k n d : ℕ) (path whole : List ℕ) → depth_at n st.depth_of ≡ some d
        → IsRoute near n end k path
        → d + k ≡ h
        → Climbs start st.parents d n path whole
        → Climbs start st.parents h end (end ∷ []) whole
    climbs h known_end shallow_end zero n d path whole known (e, here) sum climb =
        let depth : d ≡ h = omega (arith, sum) in
        let alone : path ≡ end ∷ [] = e ∙ ap (λ v. v ∷ []) here in
        subst (λ v. Climbs start st.parents v end (end ∷ []) whole) depth
          (subst (λ v. Climbs start st.parents d end v whole) alone
            (subst (λ v. Climbs start st.parents d v path whole) here climb))
    climbs h known_end shallow_end (suc k) n d path whole known (m, rest, e, hop, route) sum climb =
        elim (hop_linked n d m known hop (omega (arith, sum, shallow_end))) [
          | inl (f, found, before) ↦
              let same : some f ≡ some h = sym found ∙ known_end in
              let depth : f ≡ h = ground arith in absurd (omega (arith, depth, before, sum))
          | inr (x, there, shallow, parent) ↦
              let (f, found, before) =
                end_depth k m x rest there route (omega (arith, shallow, sum, shallow_end)) in
              let same : some f ≡ some h = sym found ∙ known_end in
              let depth : f ≡ h = ground arith in
              let exact : x ≡ suc d = omega (arith, depth, before, shallow, sum) in
              climbs h known_end shallow_end k m (suc d) rest whole
                (subst (λ v. depth_at m st.depth_of ≡ some v) exact there) route
                (omega (arith, sum))
                (n, parent exact, subst (λ v. Climbs start st.parents d n v whole) e climb)
        ]
