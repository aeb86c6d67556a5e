-- ===== src/Storage/Traverse/Complete.antt =====
-- Without a cap and with at most one hop to begin with, the breadth-first loop misses no node that a
-- walk reaches, and reports it with no larger depth than the walk's.
use graphdblite.Base.{
  ℕ, zero, suc, ◌+◌, ◌≤◌, ◌≡◌, refl, sym, inl, inr, ◌⊎◌, Bool, true, false, none, some, List, [],
  ◌∷◌, arith, leb, ◌==◌, ==_iff, Bool-cases,
}
use graphdblite.Types.Error.{Result, ok, Result-cases}
use graphdblite.Storage.Traverse.{Bfs, visit_all, bfs_loop}
use graphdblite.Storage.Traverse.Walks.{Walk, Has}
use graphdblite.Storage.Traverse.Seen.{mark_all, mark_all-SeenBy, SeenBy}
use graphdblite.Storage.Traverse.Wide.{IsWide, Settled, visit_all-IsWide}

abbrev Nobody : ℕ → ℕ → Type 0
Nobody v e = ⊥

abbrev Only : ℕ → ℕ → ℕ → ℕ → Type 0
Only c d v e = (c ≡ v) × (d ≡ e)

module _ (near : ℕ → Result (List ℕ)) (start min_hops max_hops : ℕ) (few : min_hops ≤ 1) where
  -- The first node of the queue is taken from it.
  pop-IsWide :
      (low current depth : ℕ) (seen : List (ℕ × ℕ)) (visited in_result : List ℕ)
      (found queue : List (ℕ × ℕ))
      → IsWide near start min_hops max_hops Nobody low seen (record {
        visited = visited;
        in_result = in_result;
        result = found;
        queue = (current, depth) ∷ queue;
      })
      → IsWide near start min_hops max_hops
          (Only current depth)
          depth
          seen
          (record { visited = visited; in_result = in_result; result = found; queue = queue })
  pop-IsWide low current depth seen visited in_result found queue s = record {
    home = s.home;
    known = s.known;
    queued = λ n d h. s.queued n d (inr h);
    order = s.order.1;
    close = λ n d h. omega (arith, s.close n d h, s.order.0);
    done = λ v e h. elim (s.done v e h) [
      | inl (inl here) ↦ inr (inl here)
      | inl (inr waits) ↦ inl waits
      | inr (inl nobody) ↦ elim nobody [ ]
      | inr (inr over) ↦ inr (inr over)
    ];
    reported = s.reported;
    listed = s.listed;
    included = s.included;
  }

  -- The node that was taken is done.
  settle-IsWide :
      (low current depth : ℕ) (seen : List (ℕ × ℕ)) (st : Bfs)
      → Settled near start min_hops max_hops seen current depth
      → IsWide near start min_hops max_hops (Only current depth) low seen st
      → IsWide near start min_hops max_hops Nobody low seen st
  settle-IsWide low current depth seen st over s = record {
    home = s.home;
    known = s.known;
    queued = s.queued;
    order = s.order;
    close = s.close;
    done = λ v e h. elim (s.done v e h) [
      | inl waits ↦ inl waits
      | inr (inl (ev, ed)) ↦ inr (inr (rw (← ev, ← ed) over))
      | inr (inr past) ↦ inr (inr past)
    ];
    reported = s.reported;
    listed = s.listed;
    included = s.included;
  }

  -- What holds of the nodes seen when the loop has ended.
  record IsDone (seen : List (ℕ × ℕ)) (result : List (ℕ × ℕ)) : Type 0 where
    home : Has start 0 seen
    over : (v e : ℕ) → Has v e seen → Settled near start min_hops max_hops seen v e
    reported : (n d : ℕ) → Has n d seen → ((n == start) ≡ true) ⊎ Has n d result

  loop-IsDone :
      (fuel low : ℕ) (seen : List (ℕ × ℕ)) (visited in_result : List ℕ) (found queue : List (ℕ × ℕ))
      (result : List (ℕ × ℕ))
      → IsWide near start min_hops max_hops Nobody low seen
          (record { visited = visited; in_result = in_result; result = found; queue = queue })
      → bfs_loop near start min_hops max_hops none fuel visited in_result found queue
        ≡ some (ok result)
      → (all : List (ℕ × ℕ)) × IsDone all result
  unfolding bfs_loop
  loop-IsDone zero low seen visited in_result found queue result s h = cc
  loop-IsDone (suc fuel) low seen visited in_result found [] result s h =
      let e : found ≡ result = cc h in
      rw (← e) (
        seen,
        record {
          home = s.home;
          over = λ v e h. elim (s.done v e h) [
            | inl waits ↦ elim waits [ ]
            | inr (inl nobody) ↦ elim nobody [ ]
            | inr (inr past) ↦ past
          ];
          reported = s.reported;
        },
      )
  loop-IsDone (suc fuel) low seen visited in_result found ((current, depth) ∷ queue) result s h =
      let here : Bfs = record {
        visited = visited;
        in_result = in_result;
        result = found;
        queue = queue;
      } in
      let popped = pop-IsWide low current depth seen visited in_result found queue s in
      elim (Bool-cases (leb max_hops depth)) [
        | inl far ↦
            loop-IsDone fuel depth seen visited in_result found queue result
              (settle-IsWide depth current depth seen here (inl (ground arith)) popped)
              (rw far at h)
        | inr inside ↦ elim (Result-cases (near current)) [
          | inl (e, same) ↦ cc (rw (inside, same) at h)
          | inr (ns, same) ↦
              let (s1, on) =
                visit_all-IsWide near start min_hops max_hops few (Only current depth) depth ns seen
                  here popped in
              let after : Bfs × Bool = visit_all start min_hops none (depth + 1) ns here in
              let over : Settled near start min_hops max_hops (mark_all (depth + 1) ns seen) current
                  depth =
                inr (λ w hop.
                  mark_all-SeenBy (depth + 1) ns seen popped.close w
                    (let (ns', ans, m) = hop in let en : ns' ≡ ns = cc in rw (← en) m)) in
              loop-IsDone fuel depth (mark_all (depth + 1) ns seen) after.0.visited
                after.0.in_result after.0.result after.0.queue result
                (settle-IsWide depth current depth (mark_all (depth + 1) ns seen) after.0 over s1)
                (rw (inside, same, on) at h)
        ]
      ]

  Walk-SeenBy :
      (seen result : List (ℕ × ℕ))
      → IsDone seen result
      → (k n : ℕ) → k ≤ max_hops
      → Walk near start k n
      → SeenBy k n seen
  Walk-SeenBy seen result s zero n le w = rw (← w) (0, s.home, omega arith)
  Walk-SeenBy seen result s (suc k) n le (m, w, hop) =
      let (e, h, less) = Walk-SeenBy seen result s k m (omega arith) w in
      elim (s.over m e h) [
        | inl far ↦ absurd (omega arith)
        | inr all ↦ let (d, x, near_by) = all n hop in (d, x, omega arith)
      ]

  pub bfs_loop-IsComplete :
      (fuel : ℕ) (result : List (ℕ × ℕ)) (k n : ℕ)
      → bfs_loop near start min_hops max_hops none fuel (start ∷ []) [] [] ((start, 0) ∷ [])
        ≡ some (ok result)
      → Walk near start k n
      → k ≤ max_hops
      → (n == start) ≡ false
      → (d : ℕ) × Has n d result × (d ≤ k)
  bfs_loop-IsComplete fuel result k n h w le away =
      let (seen, s) =
        loop-IsDone fuel 0 ((start, 0) ∷ []) (start ∷ []) [] [] ((start, 0) ∷ []) result
          (record {
            home = inl (refl, refl);
            known = λ m. refl;
            queued = λ m d x. x;
            order = (omega arith, tt);
            close = λ m d x. elim x [ inl (en, ed) ↦ omega arith | inr nowhere ↦ elim nowhere [ ] ];
            done = λ v e x. inl x;
            reported = λ m d x. elim x [
              | inl (en, ed) ↦ inl ((==_iff m start).1 (sym en))
              | inr nowhere ↦ elim nowhere [ ]
            ];
            listed = λ m d x. elim x [ ];
            included = λ m x. cc;
          })
          h in
      let (e, x, less) = Walk-SeenBy seen result s k n le w in
      elim (s.reported n e x) [ inl same ↦ cc | inr here ↦ (e, here, less) ]
