-- ===== src/Storage/Codec.antt =====
-- rmp_serde, the MessagePack library: a parameter of the model. A failure is its message.
use graphdblite.Base.{◌≡◌, ◌⊎◌, inl, inr, Bytes, List}
use graphdblite.Types.Error.{Result, ok, err, serialization}
use graphdblite.Types.Value.{Properties}

-- types.rs: what a row of the `nodes` table holds.
pub record NodeRecord : Type 0 where
  pub labels : List Bytes
  pub properties : Properties

pub record Codec : Type 0 where
  pub props_to_vec : Properties → Bytes ⊎ Bytes
  pub props_from_slice : Bytes → Bytes ⊎ Properties
  pub node_to_vec : NodeRecord → Bytes ⊎ Bytes
  pub node_from_slice : Bytes → Bytes ⊎ NodeRecord

-- What the library documents: what was serialised comes back from its bytes.
pub record CodecLaws (M : Codec) : Type 0 where
  pub props_round :
      (p : Properties) (bytes : Bytes)
      → M.props_to_vec p ≡ inr bytes
      → M.props_from_slice bytes ≡ inr p
  pub node_round :
      (r : NodeRecord) (bytes : Bytes)
      → M.node_to_vec r ≡ inr bytes
      → M.node_from_slice bytes ≡ inr r

-- `map_err(|e| GraphError::Serialization { … })`.
abbrev pub serialized : {A : Type 0} → Bytes ⊎ A → Result A
serialized (inl message) = err (serialization message)
serialized (inr a) = ok a
