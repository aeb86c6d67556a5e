-- ===== src/Cypher/Cache.antt =====
-- cypher/plan_cache.rs and cypher/parse_cache.rs. Both keep a hash map and a queue of its keys in the
-- order of insertion, behind a mutex. The map is the list of its entries, a new one last. The code
-- under one lock is one function of the state; a poisoned lock is skipped.
pub mod Fifo
pub mod Steps
use graphdblite.Base.{
  ℕ, Bool, false, ◌&&◌, ◌||◌, Option, none, some, List, [], ◌∷◌, ◌++◌, length, leb, ◌==◌,
  if◌then◌else◌, Bytes, bytes_eq,
}
use graphdblite.Types.Error.{Result, ok, err}
use graphdblite.Types.Exec.{Exec}

pub record Inner (K V : Type 0) : Type 0 where
  pub entries : List (K × V)
  pub order : List K
  pub capacity : ℕ

-- The mutex: whether it is poisoned, and what it guards.
pub record Cache (K V : Type 0) : Type 0 where
  pub poisoned : Bool
  pub inner : Inner K V

module _ {K V : Type 0} (same : K → K → Bool) where
  unfoldable pub find : K → List (K × V) → Option V
  find key [] = none
  find key ((k, v) ∷ entries) = if same k key then some v else find key entries

  unfoldable pub contains_key : K → List (K × V) → Bool
  contains_key key [] = false
  contains_key key ((k, v) ∷ entries) = same k key || contains_key key entries

  unfoldable pub remove_key : K → List (K × V) → List (K × V)
  remove_key key [] = []
  remove_key key ((k, v) ∷ entries) =
      let rest = remove_key key entries in if same k key then rest else (k, v) ∷ rest

  unfoldable pub evict : List (K × V) → List K → List (K × V) × List K
  evict entries [] = (entries, [])
  evict entries (oldest ∷ order) = (remove_key oldest entries, order)

  -- The second locked part: an absent key goes in, after the oldest went out of a full cache.
  unfoldable pub insert : K → V → Inner K V → Inner K V
  insert key value inner =
      if contains_key key inner.entries
      then inner
      else (let (entries, order) =
            if leb inner.capacity (length inner.entries)
            then evict inner.entries inner.order
            else (inner.entries, inner.order) in
          record {
            entries = entries ++ ((key, value) ∷ []);
            order = order ++ (key ∷ []);
            capacity = inner.capacity;
          })

  -- The first locked part.
  unfoldable pub look_up : K → Cache K V → Option V
  look_up key cache = if cache.poisoned then none else find key cache.inner.entries

  unfoldable pub store : K → V → Cache K V → Cache K V
  store key value cache =
      if cache.poisoned
      then cache
      else record { poisoned = false; inner = insert key value cache.inner }

  abbrev built : K → Result V → Cache K V → Result V × Cache K V
  built key (err e) cache = (err e, cache)
  built key (ok value) cache = (ok value, store key value cache)

  -- `get_or_plan` and `get_or_parse`, from the key and what building its value gives.
  unfoldable pub get_or_build : K → Result V → Exec (Cache K V) V
  get_or_build key build cache = elim (look_up key cache) [
    | some value ↦ (ok value, cache)
    | none ↦ built key build cache
  ]

abbrev pub default_capacity : ℕ
default_capacity = 128

abbrev pub with_capacity : {K V : Type 0} → ℕ → Cache K V
with_capacity n = record {
  poisoned = false;
  inner = record { entries = []; order = []; capacity = n };
}

-- plan_cache.rs: the query and the schema's epoch.
pub record Key : Type 0 where
  pub cypher : Bytes
  pub epoch : ℕ

abbrev pub key_eq : Key → Key → Bool
key_eq a b = bytes_eq a.cypher b.cypher && a.epoch == b.epoch

unfoldable pub get_or_plan : {P : Type 0} → Bytes → ℕ → Result P → Exec (Cache Key P) P
get_or_plan cypher epoch build =
    get_or_build key_eq (record { cypher = cypher; epoch = epoch }) build

-- parse_cache.rs, with the parser as an argument.
unfoldable pub get_or_parse : {P : Type 0} → (Bytes → Result P) → Bytes → Exec (Cache Bytes P) P
get_or_parse parse cypher = get_or_build bytes_eq cypher (parse cypher)
