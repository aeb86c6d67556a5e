-- ===== src/Checks/Schemas.antt =====
-- A schema with one name, and another added.
use graphdblite.Base.{ℕ, ◌≡◌, some, arith, text}
use graphdblite.Cypher.Slots.{RecordSchema, empty_schema, add}
use graphdblite.Cypher.Slots.Laws.{IsSchema, IsAdded, add_lem}

empty-IsSchema : IsSchema empty_schema
empty-IsSchema name i = (λ h. cc, λ h. cc)

add_lem_example :
    (s' : RecordSchema) × (slot : ℕ) × (add empty_schema (text "p.name") ≡ some (s', slot))
    × IsAdded empty_schema (text "p.name") s' slot
add_lem_example = add_lem empty_schema (text "p.name") empty-IsSchema (ground arith)
