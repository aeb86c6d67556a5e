-- ===== src/Cypher/Planner/Suggest.antt =====
-- The name that an error suggests. The outer `none` is an index out of range in the distance.
use graphdblite.Base.{
  ℕ, ◌+◌, ◌≤◌, ◌<◌, Bool, true, ◌&&◌, Option, none, some, List, [], ◌∷◌, map, length, if◌then◌else◌,
  leb, ltb, ◌≡◌, refl, inl, inr, ◌⊎◌, All, Bool-cases, arith, Bytes,
}
use graphdblite.Cypher.Planner.Distance.{levenshtein_lc, levenshtein_lc_lem, distance, onto}

abbrev lower_byte : ℕ → ℕ
lower_byte c = if leb 65 c && leb c 90 then c + 32 else c

abbrev pub to_ascii_lowercase : Bytes → Bytes
to_ascii_lowercase name = map (λ c. lower_byte c) name

abbrev pub max_dist : Bytes → ℕ
max_dist target = if leb (length target) 3 then 1 else 2

abbrev is_better : ℕ → Option (ℕ × Bytes) → Bool
is_better d none = true
is_better d (some (bd, name)) = ltb d bd

-- One turn of the loop over the candidates.
abbrev consider : ℕ → Bytes → ℕ → Option (ℕ × Bytes) → Option (ℕ × Bytes)
consider max cand d best = if leb d max && is_better d best then some (d, cand) else best

abbrev name_of : Option (ℕ × Bytes) → Option Bytes
name_of none = none
name_of (some (d, name)) = some name

unfoldable pub suggest_loop : Bytes → ℕ → List Bytes → Option (ℕ × Bytes) → Option (Option Bytes)
unfolding levenshtein_lc
suggest_loop target_lc max [] best = some (name_of best)
suggest_loop target_lc max (cand ∷ candidates) best =
    elim (levenshtein_lc target_lc (to_ascii_lowercase cand)) [
      | none ↦ none
      | some d ↦ suggest_loop target_lc max candidates (consider max cand d best)
    ]

unfoldable pub suggest_close_name : Bytes → List Bytes → Option (Option Bytes)
unfolding suggest_loop
suggest_close_name target candidates =
    suggest_loop (to_ascii_lowercase target) (max_dist target) candidates none

-- The edit distance of two names without regard to case.
abbrev pub apart : Bytes → Bytes → ℕ
apart target_lc cand = distance (onto target_lc []) (onto (to_ascii_lowercase cand) [])

abbrev pub IsAmong : Bytes → List Bytes → Type 0
IsAmong name [] = ⊥
IsAmong name (cand ∷ candidates) = (name ≡ cand) ⊎ IsAmong name candidates

-- A candidate within the bound that no other undercuts, or none where all lie beyond the bound.
abbrev pub IsClosest : Bytes → ℕ → List Bytes → Option Bytes → Type 0
IsClosest target_lc max candidates none = All (λ cand. max < apart target_lc cand) candidates
IsClosest target_lc max candidates (some name) =
    IsAmong name candidates
    × (apart target_lc name ≤ max)
    × All (λ cand. apart target_lc name ≤ apart target_lc cand) candidates

-- The same against a best so far.
abbrev IsBest : Bytes → ℕ → List Bytes → Option (ℕ × Bytes) → Option Bytes → Type 0
IsBest target_lc max candidates none result = IsClosest target_lc max candidates result
IsBest target_lc max candidates (some (bd, best)) none = ⊥
IsBest target_lc max candidates (some (bd, best)) (some name) =
    ((name ≡ best) ⊎ IsAmong name candidates)
    × (apart target_lc name ≤ bd)
    × All (λ cand. apart target_lc name ≤ apart target_lc cand) candidates

abbrev IsReal : Bytes → ℕ → Option (ℕ × Bytes) → Type 0
IsReal target_lc max none = Unit {0}
IsReal target_lc max (some (bd, best)) = (bd ≡ apart target_lc best) × (bd ≤ max)

module _ (target_lc : Bytes) (max : ℕ) where
  consider-IsReal :
      (cand : Bytes) (best : Option (ℕ × Bytes))
      → IsReal target_lc max best
      → IsReal target_lc max (consider max cand (apart target_lc cand) best)
  consider-IsReal cand best r =
      elim (Bool-cases (leb (apart target_lc cand) max && is_better (apart target_lc cand) best)) [
        | inl new ↦ rw new (refl, ground arith)
        | inr old ↦ rw old r
      ]

  consider-IsBest :
      (cand : Bytes) (candidates : List Bytes) (best : Option (ℕ × Bytes)) (result : Option Bytes)
      → IsReal target_lc max best
      → IsBest target_lc max candidates (consider max cand (apart target_lc cand) best) result
      → IsBest target_lc max (cand ∷ candidates) best result
  consider-IsBest cand candidates none none r h =
      elim (Bool-cases (leb (apart target_lc cand) max)) [
        | inl new ↦ elim (rw new at h) [ ]
        | inr old ↦ (ground arith, rw old at h)
      ]
  consider-IsBest cand candidates none (some name) r h =
      elim (Bool-cases (leb (apart target_lc cand) max)) [
        | inl new ↦
            let (where_, least, rest) = rw new at h in
            let small : apart target_lc cand ≤ max = ground arith in
            (where_, omega (arith, least, small), (least, rest))
        | inr old ↦
            let (among, least, rest) = rw old at h in
            (inr among, least, (ground (arith, least), rest))
      ]
  consider-IsBest cand candidates (some (bd, best)) none r h =
      elim (Bool-cases (leb (apart target_lc cand) max && ltb (apart target_lc cand) bd)) [
        | inl new ↦ elim (rw new at h) [ ]
        | inr old ↦ elim (rw old at h) [ ]
      ]
  consider-IsBest cand candidates (some (bd, best)) (some name) (same, le) h =
      elim (Bool-cases (leb (apart target_lc cand) max && ltb (apart target_lc cand) bd)) [
        | inl new ↦
            let (where_, least, rest) = rw new at h in
            (inr where_, ground (arith, least), (least, rest))
        | inr old ↦
            let (where_, least, rest) = rw old at h in
            (
              elim where_ [ inl e ↦ inl e | inr among ↦ inr (inr among) ],
              least,
              (ground (arith, least, le), rest),
            )
      ]

  suggest_loop_lem :
      (candidates : List Bytes) (best : Option (ℕ × Bytes))
      → IsReal target_lc max best
      → (result : Option Bytes) × (suggest_loop target_lc max candidates best ≡ some result)
        × IsBest target_lc max candidates best result
  unfolding suggest_loop
  suggest_loop_lem [] none r = (none, refl, tt)
  suggest_loop_lem [] (some (bd, best)) (same, le) =
      (some best, refl, (inl refl, omega (arith, same), tt))
  suggest_loop_lem (cand ∷ candidates) best r =
      let (result, e, h) =
        suggest_loop_lem candidates (consider max cand (apart target_lc cand) best)
          (consider-IsReal cand best r) in
      (
        result,
        rw (suggest_loop, levenshtein_lc_lem target_lc (to_ascii_lowercase cand)) e,
        consider-IsBest cand candidates best result r h,
      )

-- suggest_close_name ends with a candidate at the least edit distance of all, without regard to case,
-- when one lies within 1 of a name of at most 3 bytes or within 2 of a longer one, and with no name
-- when all lie beyond.
pub suggest_close_name_lem :
    (target : Bytes) (candidates : List Bytes)
    → (result : Option Bytes) × (suggest_close_name target candidates ≡ some result)
      × IsClosest (to_ascii_lowercase target) (max_dist target) candidates result
unfolding suggest_close_name
suggest_close_name_lem target candidates =
    suggest_loop_lem (to_ascii_lowercase target) (max_dist target) candidates none tt
