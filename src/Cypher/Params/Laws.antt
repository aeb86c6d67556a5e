-- ===== src/Cypher/Params/Laws.antt =====
-- What `validate_params` promises.
use graphdblite.Base.{
  ◌≡◌, refl, ◌↔◌, true, List, [], ◌∷◌, ◌++◌, All, inl, inr, ◌⊎◌, Bytes, text, Option, none, some,
}
use graphdblite.Types.Error.{ok, err, query, argument_error, semantic_analysis, other}
use graphdblite.Types.Value.{Fields, Value, get_field}
use graphdblite.Cypher.Ast.{Statement}
use graphdblite.Cypher.Params.{validate_params, check_param, missing}
use graphdblite.Cypher.Params.References.{statement_params}
use graphdblite.Cypher.Params.Agrees.{check_all, check_all-append, statement-Agrees}

-- The caller gave the parameter.
abbrev pub IsGiven : Fields → Bytes → Type 0
IsGiven ps name = (v : Value) × (get_field name ps ≡ some v)

check_param-cases :
    (name : Bytes) (ps : Fields)
    → (IsGiven ps name × (check_param name ps ≡ ok tt))
      ⊎ ((get_field name ps ≡ none) × (check_param name ps ≡ missing name))
check_param-cases name ps = cases (get_field name ps) refl
  where
    cases :
        (o : Option Value)
        → get_field name ps ≡ o
        → (IsGiven ps name × (check_param name ps ≡ ok tt))
          ⊎ ((get_field name ps ≡ none) × (check_param name ps ≡ missing name))
    cases none e = inr (e, rw (check_param, e) refl)
    cases (some v) e = inl ((v, e), rw (check_param, e) refl)

given : (name : Bytes) (ps : Fields) → IsGiven ps name → check_param name ps ≡ ok tt
given name ps (v, e) = rw (check_param, e) refl

check_all-ok :
    (names : List Bytes) (ps : Fields) → (check_all names ps ≡ ok tt) ↔ All (IsGiven ps) names
unfolding check_all
check_all-ok [] ps = (λ h. tt, λ h. refl)
check_all-ok (name ∷ names) ps = (
  λ h. elim (check_param-cases name ps) [
    | inl (g, e) ↦ (g, (check_all-ok names ps).0 (rw e at h))
    | inr (absent, e) ↦ cc (rw e at h)
  ],
  λ (g, rest). rw (given name ps g) ((check_all-ok names ps).1 rest),
)

check_all-stops :
    (name : Bytes) (after : List Bytes) (ps : Fields)
    → get_field name ps ≡ none
    → check_all (name ∷ after) ps ≡ missing name
unfolding check_all
check_all-stops name after ps absent = rw (check_param, absent) refl

-- validate_params accepts a statement exactly when the caller gave each parameter that the
-- statement refers to outside pattern predicates, in subqueries and patterns too; a parameter in a
-- pattern predicate alone is not asked for.
pub validate_params-ok :
    (stmt : Statement) (ps : Fields)
    → (validate_params stmt ps ≡ ok tt) ↔ All (IsGiven ps) (statement_params true stmt)
validate_params-ok stmt ps =
    rw ((statement-Agrees stmt ps).same) (check_all-ok (statement_params true stmt) ps)

-- When the references of a statement outside pattern predicates begin with given ones and go on with
-- one that the caller did not give, validate_params fails with the error that names it.
pub validate_params-missing :
    (stmt : Statement) (ps : Fields) (before after : List Bytes) (name : Bytes)
    → statement_params true stmt ≡ before ++ name ∷ after
    → All (IsGiven ps) before
    → get_field name ps ≡ none
    → validate_params stmt ps
      ≡ err (query (argument_error semantic_analysis other (text "missing parameter: $" ++ name)))
validate_params-missing stmt ps before after name e g absent =
    rw
      (
        (statement-Agrees stmt ps).same,
        e,
        check_all-append before (name ∷ after) ps,
        (check_all-ok before ps).1 g,
      )
      (check_all-stops name after ps absent)
