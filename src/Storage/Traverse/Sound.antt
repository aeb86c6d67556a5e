-- ===== src/Storage/Traverse/Sound.antt =====
-- What the breadth-first loop reports.
use graphdblite.Base.{
  ℕ, zero, suc, ◌+◌, ◌≤◌, ◌<◌, ◌≡◌, refl, inl, inr, ◌⊎◌, Bool, true, false, Option, none, some,
  List, [], ◌∷◌, ◌++◌, arith, length, length-append, contains, contains-append, IsDistinct,
  IsDistinct-append, leb, ◌==◌, if◌then◌else◌, Bool-cases,
}
use graphdblite.Types.Error.{Result, ok, Result-cases}
use graphdblite.Storage.Traverse.{
  Bfs, visit, visit_all, bfs_loop, enqueue, add_result, is_new_result, reached,
}
use graphdblite.Storage.Traverse.Walks.{Walk, Has, firsts, Walk-add, Has-append, firsts-append}

-- At most the cap, or one where the cap is 0.
abbrev pub IsCapped : Option ℕ → List (ℕ × ℕ) → Type 0
IsCapped none result = Unit {0}
IsCapped (some cap) result = (length result ≤ cap) ⊎ (length result ≤ 1)

-- Room for one more.
abbrev pub IsOpen : Option ℕ → List (ℕ × ℕ) → Type 0
IsOpen none result = Unit {0}
IsOpen (some cap) result = (length result < cap) ⊎ (length result < 1)

full-IsCapped :
    (cap : Option ℕ) (result : List (ℕ × ℕ)) (x : ℕ × ℕ)
    → IsOpen cap result
    → IsCapped cap (result ++ x ∷ [])
full-IsCapped none result x o = tt
full-IsCapped (some cap) result x o = ground (arith, length-append result (x ∷ []))

room-IsOpen :
    (cap : Option ℕ) (result : List (ℕ × ℕ)) (x : ℕ × ℕ)
    → reached cap (result ++ x ∷ []) ≡ false
    → IsOpen cap (result ++ x ∷ [])
room-IsOpen none result x h = tt
room-IsOpen (some cap) result x h = ground arith

IsOpen-IsCapped : (cap : Option ℕ) (result : List (ℕ × ℕ)) → IsOpen cap result → IsCapped cap result
IsOpen-IsCapped none result o = tt
IsOpen-IsCapped (some cap) result o = ground arith

module _ (near : ℕ → Result (List ℕ)) (start min_hops max_hops : ℕ) where
  -- Every reported node is another than the start, reported once, and at the end of a walk of its
  -- depth, which lies within the bounds.
  pub record IsReport (result : List (ℕ × ℕ)) : Type 0 where
    pub entries :
        (n d : ℕ)
        → Has n d result
        → ((n == start) ≡ false) × (min_hops ≤ d) × (d ≤ max_hops) × Walk near start d n
    pub distinct : IsDistinct (firsts result)

  pub record IsSound (st : Bfs) : Type 0 where
    pub report : IsReport st.result
    pub listed : (n : ℕ) → contains st.in_result n ≡ contains (firsts st.result) n
    pub walks : (n d : ℕ) → Has n d st.queue → Walk near start d n

  enqueue-IsSound :
      (n d : ℕ) (st : Bfs) → Walk near start d n → IsSound st → IsSound (enqueue n d st)
  enqueue-IsSound n d st w s = elim (Bool-cases (contains st.visited n)) [
    | inl old ↦ rw old s
    | inr new ↦ rw new (record {
      report = s.report;
      listed = s.listed;
      walks = λ m e h. elim (Has-append m e n d st.queue h) [
        | inl before ↦ s.walks m e before
        | inr (en, ed) ↦ rw (← en, ← ed) w
      ];
    })
  ]

  add_result-IsSound :
      (n d : ℕ) (st : Bfs)
      → Walk near start d n
      → d ≤ max_hops
      → is_new_result start min_hops d n st ≡ true
      → IsSound st
      → IsSound (add_result n d st)
  add_result-IsSound n d st w le new s = record {
    report = record {
      entries = λ m e h. elim (Has-append m e n d st.result h) [
        | inl before ↦ s.report.entries m e before
        | inr (en, ed) ↦ rw (← en, ← ed) (ground arith, ground arith, le, w)
      ];
      distinct =
          rw (firsts-append st.result n d)
            (IsDistinct-append (firsts st.result) n s.report.distinct (ground (arith, s.listed n)));
    };
    listed = λ m.
        rw (firsts-append st.result n d)
          (ground (arith, s.listed m, contains-append (firsts st.result) (n ∷ []) m));
    walks = s.walks;
  }

  module _ (cap : Option ℕ) where
    -- Sound, and within the cap; open while the search goes on.
    abbrev Holds : Bfs × Bool → Type 0
    Holds (st, stop) = IsSound st × (if stop then IsCapped cap st.result else IsOpen cap st.result)

    enqueue-IsOpen :
        (n d : ℕ) (st : Bfs) → IsOpen cap st.result → IsOpen cap (enqueue n d st).result
    enqueue-IsOpen n d st o = elim (Bool-cases (contains st.visited n)) [
      | inl old ↦ rw old o
      | inr new ↦ rw new o
    ]

    visit-Holds :
        (n d : ℕ) (st : Bfs)
        → Walk near start d n
        → d ≤ max_hops
        → IsSound st
        → IsOpen cap st.result
        → Holds (visit start min_hops cap d n st)
    unfolding visit
    visit-Holds n d st w le s o = elim (Bool-cases (is_new_result start min_hops d n st)) [
      | inl new ↦
          let added = add_result-IsSound n d st w le new s in
          elim (Bool-cases (reached cap (st.result ++ ((n, d) ∷ [])))) [
            | inl full ↦ rw (new, full) (added, full-IsCapped cap st.result (n, d) o)
            | inr room ↦
                rw (new, room)
                  (
                    enqueue-IsSound n d (add_result n d st) w added,
                    enqueue-IsOpen n d (add_result n d st) (room-IsOpen cap st.result (n, d) room),
                  )
          ]
      | inr old ↦ rw old (enqueue-IsSound n d st w s, enqueue-IsOpen n d st o)
    ]

    visit_all-Holds :
        (d : ℕ) (ns : List ℕ) (st : Bfs)
        → ((n : ℕ) → contains ns n ≡ true → Walk near start d n)
        → d ≤ max_hops
        → IsSound st
        → IsOpen cap st.result
        → Holds (visit_all start min_hops cap d ns st)
    unfolding visit_all
    visit_all-Holds d [] st ws le s o = (s, o)
    visit_all-Holds d (n ∷ ns) st ws le s o =
        let (s1, o1) = visit-Holds n d st (ws n (ground arith)) le s o in
        elim (Bool-cases (visit start min_hops cap d n st).1) [
          | inl stop ↦ rw stop (s1, rw stop at o1)
          | inr on ↦ rw on (
              visit_all-Holds d ns (visit start min_hops cap d n st).0
                (λ m h. ws m (ground (arith, h))) le s1 (rw on at o1))
        ]

    -- What the loop returns is a report within the cap.
    pub bfs_loop-IsReport :
        (fuel : ℕ) (visited in_result : List ℕ) (found queue : List (ℕ × ℕ)) (result : List (ℕ × ℕ))
        → IsSound
            (record { visited = visited; in_result = in_result; result = found; queue = queue })
        → IsOpen cap found
        → bfs_loop near start min_hops max_hops cap fuel visited in_result found queue
          ≡ some (ok result)
        → IsReport result × IsCapped cap result
    unfolding bfs_loop
    bfs_loop-IsReport zero visited in_result found queue result s o h = cc
    bfs_loop-IsReport (suc fuel) visited in_result found [] result s o h =
        let e : found ≡ result = cc h in rw (← e) (s.report, IsOpen-IsCapped cap found o)
    bfs_loop-IsReport (suc fuel) visited in_result found ((current, depth) ∷ queue) result s o h =
        elim (Bool-cases (leb max_hops depth)) [
          | inl far ↦
              bfs_loop-IsReport fuel visited in_result found queue result
                (record {
                  report = s.report;
                  listed = s.listed;
                  walks = λ n d m. s.walks n d (inr m);
                })
                o (rw far at h)
          | inr inside ↦ elim (Result-cases (near current)) [
            | inl (e, same) ↦ cc (rw (inside, same) at h)
            | inr (ns, same) ↦
                let here : Bfs = record {
                  visited = visited;
                  in_result = in_result;
                  result = found;
                  queue = queue;
                } in
                let sound : IsSound here = record {
                  report = s.report;
                  listed = s.listed;
                  walks = λ n d m. s.walks n d (inr m);
                } in
                let after : Bfs × Bool = visit_all start min_hops cap (depth + 1) ns here in
                let (s1, o1) =
                  visit_all-Holds (depth + 1) ns here
                    (λ n m.
                      Walk-add near start depth current n (s.walks current depth (inl (refl, refl)))
                        (ns, same, m))
                    (ground arith) sound o in
                elim (Bool-cases after.1) [
                  | inl stop ↦
                      let e : after.0.result ≡ result = cc (rw (inside, same, stop) at h) in
                      rw (← e) (s1.report, rw stop at o1)
                  | inr on ↦
                      bfs_loop-IsReport fuel after.0.visited after.0.in_result after.0.result
                        after.0.queue result s1 (rw on at o1) (rw (inside, same, on) at h)
                ]
          ]
        ]

  -- The state before the loop.
  pub start-IsSound :
      IsSound
        (record { visited = start ∷ []; in_result = []; result = []; queue = (start, 0) ∷ [] })
  start-IsSound = record {
    report = record { entries = λ n d h. elim h [ ]; distinct = tt };
    listed = λ n. refl;
    walks = λ n d h. elim h [ inl (en, ed) ↦ rw (← ed) en | inr nowhere ↦ elim nowhere [ ] ];
  }

pub start-IsOpen : (cap : Option ℕ) → IsOpen cap []
start-IsOpen none = tt
start-IsOpen (some k) = inr (omega arith)
