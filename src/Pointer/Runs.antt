-- ===== src/Pointer/Runs.antt =====
-- Concrete runs, and the theorems at concrete inputs.
use bee_rpc_over_grpc_py.Prelude.{
  ℕ, ◌≡◌, refl, true, false, [], ◌∷◌, none, some, get_elem?, bytes_eq, arith,
}
use bee_rpc_over_grpc_py.Outcome.{ok, err, hash_type_error}
use bee_rpc_over_grpc_py.Varint.{Bytes}
use bee_rpc_over_grpc_py.Hex.{hex}
use bee_rpc_over_grpc_py.Wire.{Hash, Block}
use bee_rpc_over_grpc_py.Pointer.{resolve_hash_types, block_id_from_pointer, block_pointer}
use bee_rpc_over_grpc_py.Pointer.Resolve.{
  Deduced, Undeducible, resolve_hash_types-Deduced, resolve_hash_types-err,
}
use bee_rpc_over_grpc_py.Pointer.Names.{block_id_from_pointer-block_pointer}

abbrev sha : Bytes
sha = 1 ∷ []

abbrev blake : Bytes
blake = 2 ∷ []

-- The first hash has its own type, the second one inherits it.
abbrev mixed : Block
mixed = record {
  hashes = record { type = sha; value = 10 ∷ [] } ∷ record { type = []; value = 11 ∷ [] } ∷ [];
  previous_lengths_position = [];
}

abbrev typed : Block
typed = record {
  hashes = record { type = blake; value = 9 ∷ [] } ∷ record { type = sha; value = 10 ∷ [] } ∷ [];
  previous_lengths_position = [];
}

inherits : resolve_hash_types mixed (some (sha ∷ blake ∷ [])) ≡ ok (sha ∷ blake ∷ [])
unfolding resolve_hash_types
inherits = refl

orphan : resolve_hash_types mixed none ≡ err hash_type_error
unfolding resolve_hash_types
orphan = refl

names_second :
    block_id_from_pointer blake mixed (some (sha ∷ blake ∷ [])) true ≡ some (hex (11 ∷ []))
unfolding block_id_from_pointer bytes_eq
names_second = refl

resolve_hash_types-Deduced_example :
    (t : Bytes) × (get_elem? (sha ∷ blake ∷ []) 1 ≡ some t)
    × Deduced (sha ∷ blake ∷ []) 1 (record { type = []; value = 11 ∷ [] }) t
resolve_hash_types-Deduced_example =
    resolve_hash_types-Deduced mixed (some (sha ∷ blake ∷ [])) (sha ∷ blake ∷ []) inherits 1
      (record { type = []; value = 11 ∷ [] }) refl

resolve_hash_types-err_example :
    (hash_type_error ≡ hash_type_error)
    × (i : ℕ) × (h : Hash) × (get_elem? mixed.hashes i ≡ some h)
    × Undeducible [] i h
resolve_hash_types-err_example = resolve_hash_types-err mixed none hash_type_error orphan

block_id_from_pointer-block_pointer_example :
    (block : Block) × (block_pointer sha (hex (171 ∷ [])) false ≡ some block)
    × (block_id_from_pointer sha block (some (sha ∷ [])) true ≡ some (hex (171 ∷ [])))
    × (block_id_from_pointer sha block (some (blake ∷ [])) true ≡ some (hex (171 ∷ [])))
block_id_from_pointer-block_pointer_example =
    block_id_from_pointer-block_pointer sha (171 ∷ []) [] (some (blake ∷ [])) false
      (omega arith, tt) refl
