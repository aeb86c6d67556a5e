-- ===== src/Checks/Suggestions.antt =====
-- The name suggested for a misspelt one.
use graphdblite.Base.{◌≡◌, refl, Option, some, List, [], ◌∷◌, Bytes, text}
use graphdblite.Cypher.Planner.Distance.{levenshtein_lc, levenshtein_lc_lem, distance, onto}
use graphdblite.Cypher.Planner.Suggest.{
  suggest_close_name, to_ascii_lowercase, max_dist, IsClosest, suggest_close_name_lem,
}

abbrev names : List Bytes
names = text "friend" ∷ text "person" ∷ []

suggested : suggest_close_name (text "Persn") names ≡ some (some (text "person"))
unfolding suggest_close_name
suggested = refl

levenshtein_lc_lem_example :
    levenshtein_lc (text "kitten") (text "sitting")
    ≡ some (distance (onto (text "kitten") []) (onto (text "sitting") []))
levenshtein_lc_lem_example = levenshtein_lc_lem (text "kitten") (text "sitting")

suggest_close_name_lem_example :
    (result : Option Bytes) × (suggest_close_name (text "Persn") names ≡ some result)
    × IsClosest (to_ascii_lowercase (text "Persn")) (max_dist (text "Persn")) names result
suggest_close_name_lem_example = suggest_close_name_lem (text "Persn") names
