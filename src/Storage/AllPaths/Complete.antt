-- ===== src/Storage/AllPaths/Complete.antt =====
-- storage/edge.rs: when the loop of all_shortest_paths ends, every node it met is done with.
use graphdblite.Base.{
  ℕ, zero, suc, ◌+◌, ◌≤◌, ◌≡◌, ◌⊎◌, inl, inr, refl, subst, true, ◌||◌, Option, none, some, List, [],
  ◌∷◌, contains, leb, Bool-cases, arith,
}
use graphdblite.Types.Error.{Result, ok, err, Result-cases}
use graphdblite.Storage.Traverse.Walks.{Has}
use graphdblite.Storage.AllPaths.{Levels, depth_at, level, level_loop, is_past}
use graphdblite.Storage.AllPaths.Growth.{
  Grows, IsSorted-higher, IsFront, IsLinked, IsLinked-Grows, IsPast, IsStep,
}
use graphdblite.Storage.AllPaths.Steps.{level-IsStep}

past_cases :
    (found : Option ℕ) (depth max_hops : ℕ)
    → (is_past found depth || leb max_hops depth) ≡ true
    → (max_hops ≤ depth) ⊎ ((f : ℕ) × (found ≡ some f) × (f ≤ depth))
past_cases none depth max_hops h = inl (ground arith)
past_cases (some f) depth max_hops h = elim (Bool-cases (leb f depth)) [
  | inl before ↦ inr (f, refl, ground arith)
  | inr after ↦ inl (ground arith)
]

module _ (near : ℕ → Result (List ℕ)) (end max_hops : ℕ) where
  -- A node of a depth is done with: it is too far, past the end, or its neighbours are linked.
  abbrev pub IsSettled : Levels → ℕ → ℕ → Type 0
  IsSettled st n d =
      (max_hops ≤ d)
      ⊎ (IsPast st d
          ⊎ ((ns : List ℕ) × (near n ≡ ok ns)
              × ((m : ℕ) → contains ns m ≡ true → IsLinked st d n m)))

  -- Every node with a depth is in the queue or done with.
  abbrev IsComplete : Levels → Type 0
  IsComplete st = (n d : ℕ) → depth_at n st.depth_of ≡ some d → Has n d st.queue ⊎ IsSettled st n d

  -- Every node with a depth is done with, and the depth found is the one of the end.
  abbrev pub IsFinished : Result Levels → Type 0
  IsFinished (err e) = Unit {0}
  IsFinished (ok st) =
      ((n d : ℕ) → depth_at n st.depth_of ≡ some d → IsSettled st n d)
      × (depth_at end st.depth_of ≡ st.found_depth)

  IsSettled-Grows :
      (st st' : Levels) (n d : ℕ) → Grows st st' → IsSettled st n d → IsSettled st' n d
  IsSettled-Grows st st' n d g (inl far) = inl far
  IsSettled-Grows st st' n d g (inr (inl (f, found, le))) = inr (inl (f, g.found f found, le))
  IsSettled-Grows st st' n d g (inr (inr (ns, answer, linked))) =
      inr (inr (ns, answer, λ m h. IsLinked-Grows st st' d n m g (linked m h)))

  step-IsComplete :
      (current depth : ℕ) (ns : List ℕ) (here after : Levels)
      → near current ≡ ok ns
      → IsStep end current depth ns here after
      → ((n d : ℕ)
          → depth_at n here.depth_of ≡ some d
          → Has n d ((current, depth) ∷ here.queue) ⊎ IsSettled here n d)
      → IsComplete after
  step-IsComplete current depth ns here after answer step complete n d known =
      elim (step.fresh n d known) [
        | inr (inl queued) ↦ inl queued
        | inr (inr past) ↦ inr (inr (inl past))
        | inl old ↦ elim (complete n d old) [
          | inr settled ↦ inr (IsSettled-Grows here after n d step.grows settled)
          | inl (inr queued) ↦ inl (step.grows.queued n d queued)
          | inl (inl (e, f)) ↦ inr (
              subst (λ v. IsSettled after v d) e
                (subst (λ v. IsSettled after current v) f (inr (inr (ns, answer, step.linked)))))
        ]
      ]

  skip-IsComplete :
      (current depth : ℕ) (here : Levels)
      → (max_hops ≤ depth) ⊎ IsPast here depth
      → ((n d : ℕ)
          → depth_at n here.depth_of ≡ some d
          → Has n d ((current, depth) ∷ here.queue) ⊎ IsSettled here n d)
      → IsComplete here
  skip-IsComplete current depth here far complete n d known = elim (complete n d known) [
    | inr settled ↦ inr settled
    | inl (inr queued) ↦ inl queued
    | inl (inl (e, f)) ↦ inr (subst (λ v. IsSettled here n v) f (too_far far))
  ]
    where
      too_far : (max_hops ≤ depth) ⊎ IsPast here depth → IsSettled here n depth
      too_far (inl h) = inl h
      too_far (inr h) = inr (inl h)

  next-IsFront :
      (low depth : ℕ) (parents : List (ℕ × List ℕ)) (depths queue : List (ℕ × ℕ)) (found : Option ℕ)
      (current : ℕ)
      → IsFront end low (record {
        parents = parents;
        depth_of = depths;
        queue = (current, depth) ∷ queue;
        found_depth = found;
      })
      → IsFront end depth
          (record { parents = parents; depth_of = depths; queue = queue; found_depth = found })
  next-IsFront low depth parents depths queue found current front =
      let (from, to, rest) = front.sorted in
      record {
        sorted = IsSorted-higher depth (suc low) (suc depth) queue (omega (arith, from)) rest;
        top = λ m e known. let le = front.top m e known in omega (arith, from, le);
        found_is = front.found_is;
      }

  pub level_loop-IsFinished :
      (fuel low : ℕ) (parents : List (ℕ × List ℕ)) (depths queue : List (ℕ × ℕ)) (found : Option ℕ)
      (r : Result Levels)
      → IsFront end low
          (record { parents = parents; depth_of = depths; queue = queue; found_depth = found })
      → IsComplete
          (record { parents = parents; depth_of = depths; queue = queue; found_depth = found })
      → level_loop near end max_hops fuel parents depths found queue ≡ some r
      → IsFinished r
  unfolding level_loop
  level_loop-IsFinished zero low parents depths queue found r front complete e = absurd cc
  level_loop-IsFinished (suc fuel) low parents depths [] found r front complete e =
      let st : Levels = record {
        parents = parents;
        depth_of = depths;
        queue = [];
        found_depth = found;
      } in
      let same : ok st ≡ r = ground arith in
      subst IsFinished same (
        (λ n d known. elim (complete n d known) [
          | inl queued ↦ elim queued [ ]
          | inr settled ↦ settled
        ]),
        front.found_is,
      )
  level_loop-IsFinished (suc fuel) low parents depths ((current, depth) ∷ queue) found r front
        complete e =
      let here : Levels = record {
        parents = parents;
        depth_of = depths;
        queue = queue;
        found_depth = found;
      } in
      let front1 = next-IsFront low depth parents depths queue found current front in
      elim (Bool-cases (is_past found depth || leb max_hops depth)) [
        | inl far ↦
            level_loop-IsFinished fuel depth parents depths queue found r front1
              (skip-IsComplete current depth here (past_cases found depth max_hops far) complete)
              (rw far at e)
        | inr inside ↦ elim (Result-cases (near current)) [
          | inl (x, failed) ↦ let same : err x ≡ r = ground arith in subst IsFinished same tt
          | inr (ns, answer) ↦
              let next : depth + 1 ≡ suc depth = omega arith in
              let after = level end current (suc depth) ns here in
              let step = level-IsStep end current depth ns here front1 in
              level_loop-IsFinished fuel depth after.parents after.depth_of after.queue
                after.found_depth r step.front
                (step-IsComplete current depth ns here after answer step complete)
                (rw (inside, answer, next) at e)
        ]
      ]
