-- ===== src/Storage/Traverse/Wide.antt =====
-- The breadth-first loop without a cap and with at most one hop to begin with: what is reported, and
-- what is still to be followed.
use graphdblite.Base.{
  ℕ, ◌+◌, ◌≤◌, ◌≡◌, refl, sym, ◌∙◌, inl, inr, ◌⊎◌, true, false, none, List, [], ◌∷◌, arith,
  contains, ◌==◌, ==_iff, if◌then◌else◌, Bool-cases,
}
use graphdblite.Types.Error.{Result}
use graphdblite.Storage.Traverse.{Bfs, visit, visit_all, is_new_result}
use graphdblite.Storage.Traverse.Walks.{
  Next, Has, firsts, Has-append, Has-append_old, Has-append_new, contains-firsts, Has-firsts,
}
use graphdblite.Storage.Traverse.Seen.{Ordered, Ordered-append, mark, mark_all, mark-keeps, SeenBy}

module _ (near : ℕ → Result (List ℕ)) (start min_hops max_hops : ℕ) where
  -- Nothing is left to do for this node: it is too far, or its neighbours were seen.
  abbrev pub Settled : List (ℕ × ℕ) → ℕ → ℕ → Type 0
  Settled seen v e = (max_hops ≤ e) ⊎ ((w : ℕ) → Next near v w → SeenBy (e + 1) w seen)

  pub record IsWide (Busy : ℕ → ℕ → Type 0) (low : ℕ) (seen : List (ℕ × ℕ)) (st : Bfs)
      : Type 0 where
    pub home : Has start 0 seen
    pub known : (n : ℕ) → contains st.visited n ≡ contains (firsts seen) n
    pub queued : (n d : ℕ) → Has n d st.queue → Has n d seen
    pub order : Ordered low st.queue
    pub close : (n d : ℕ) → Has n d seen → d ≤ low + 1
    pub done : (v e : ℕ) → Has v e seen → Has v e st.queue ⊎ (Busy v e ⊎ Settled seen v e)
    pub reported : (n d : ℕ) → Has n d seen → ((n == start) ≡ true) ⊎ Has n d st.result
    pub listed : (n d : ℕ) → Has n d st.result → contains st.in_result n ≡ true
    pub included : (n : ℕ) → contains st.in_result n ≡ true → contains st.visited n ≡ true

  Settled-mark :
      (n d : ℕ) (seen : List (ℕ × ℕ)) (v e : ℕ) → Settled seen v e → Settled (mark n d seen) v e
  Settled-mark n d seen v e (inl far) = inl far
  Settled-mark n d seen v e (inr all) =
      inr (λ w h. let (k, x, le) = all w h in (k, mark-keeps n d w k seen x, le))

  module _ (few : min_hops ≤ 1) (Busy : ℕ → ℕ → Type 0) (low : ℕ) where
    -- A node that was seen is not reported again.
    seen-is_old :
        (n d : ℕ) (seen : List (ℕ × ℕ)) (st : Bfs)
        → IsWide Busy low seen st
        → contains st.visited n ≡ true
        → is_new_result start min_hops d n st ≡ false
    seen-is_old n d seen st s old =
        let (e, h) = contains-firsts n seen (sym (s.known n) ∙ old) in
        elim (s.reported n e h) [
          | inl same ↦ ground arith
          | inr here ↦ ground (arith, s.listed n e here)
        ]

    -- A node that was not seen is reported.
    unseen-is_new :
        (n : ℕ) (seen : List (ℕ × ℕ)) (st : Bfs)
        → IsWide Busy low seen st
        → contains st.visited n ≡ false
        → is_new_result start min_hops (low + 1) n st ≡ true
    unseen-is_new n seen st s new =
        let home : contains st.visited start ≡ true =
          s.known start ∙ Has-firsts start 0 seen s.home in
        let away : (n == start) ≡ false = elim (Bool-cases (n == start)) [
          | inl same ↦ cc (rw (← (==_iff n start).0 same) at home)
          | inr other ↦ other
        ] in
        let absent : contains st.in_result n ≡ false = elim (Bool-cases (contains st.in_result n)) [
          | inl i ↦ cc (s.included n i)
          | inr o ↦ o
        ] in
        rw (away, absent) (ground arith)

    contains-mark :
        (n d m : ℕ) (seen : List (ℕ × ℕ))
        → contains (firsts seen) n ≡ false
        → contains (firsts (mark n d seen)) m ≡ (if n == m then true else contains (firsts seen) m)
    contains-mark n d m seen new = rw new (ground arith)

    pub visit-IsWide :
        (n : ℕ) (seen : List (ℕ × ℕ)) (st : Bfs)
        → IsWide Busy low seen st
        → (IsWide Busy low (mark n (low + 1) seen) (visit start min_hops none (low + 1) n st).0)
          × ((visit start min_hops none (low + 1) n st).1 ≡ false)
    unfolding visit
    visit-IsWide n seen st s = elim (Bool-cases (contains st.visited n)) [
      | inl old ↦ rw (seen-is_old n (low + 1) seen st s old, old, sym (s.known n) ∙ old) (s, refl)
      | inr new ↦
          let absent : contains (firsts seen) n ≡ false = sym (s.known n) ∙ new in
          rw (unseen-is_new n seen st s new, new, absent)
            (
              record {
                home = inr s.home;
                known = λ m. ground (arith, s.known m);
                queued = λ m e h. elim (Has-append m e n (low + 1) st.queue h) [
                  | inl before ↦ inr (s.queued m e before)
                  | inr (en, ed) ↦ inl (en, ed)
                ];
                order =
                    Ordered-append low n (low + 1) st.queue s.order (omega arith)
                      (λ m e h. s.close m e (s.queued m e h));
                close = λ m e h. elim h [
                  | inl (en, ed) ↦ omega arith
                  | inr before ↦ s.close m e before
                ];
                done = λ v e h. elim h [
                  | inl (en, ed) ↦ rw (← en, ← ed) (inl (Has-append_new n (low + 1) st.queue))
                  | inr before ↦ elim (s.done v e before) [
                    | inl waits ↦ inl (Has-append_old v e n (low + 1) st.queue waits)
                    | inr (inl busy) ↦ inr (inl busy)
                    | inr (inr over) ↦
                        inr (inr (rw absent at (Settled-mark n (low + 1) seen v e over)))
                  ]
                ];
                reported = λ m e h. elim h [
                  | inl (en, ed) ↦ rw (← en, ← ed) (inr (Has-append_new n (low + 1) st.result))
                  | inr before ↦ elim (s.reported m e before) [
                    | inl same ↦ inl same
                    | inr here ↦ inr (Has-append_old m e n (low + 1) st.result here)
                  ]
                ];
                listed = λ m e h. elim (Has-append m e n (low + 1) st.result h) [
                  | inl before ↦ ground (arith, s.listed m e before)
                  | inr (en, ed) ↦ ground arith
                ];
                included = λ m h. ground (arith, s.included m);
              },
              refl,
            )
    ]

    pub visit_all-IsWide :
        (ns : List ℕ) (seen : List (ℕ × ℕ)) (st : Bfs)
        → IsWide Busy low seen st
        → (IsWide Busy low
            (mark_all (low + 1) ns seen)
            (visit_all start min_hops none (low + 1) ns st).0)
          × ((visit_all start min_hops none (low + 1) ns st).1 ≡ false)
    unfolding visit_all
    visit_all-IsWide [] seen st s = (s, refl)
    visit_all-IsWide (n ∷ ns) seen st s =
        let (s1, on) = visit-IsWide n seen st s in
        rw on (
          visit_all-IsWide ns (mark n (low + 1) seen) (visit start min_hops none (low + 1) n st).0
            s1)
