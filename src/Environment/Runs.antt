-- ===== src/Environment/Runs.antt =====
-- Concrete runs, and the theorems at concrete inputs.
use bee_rpc_over_grpc_py.Prelude.{◌≡◌, refl, false, [], ◌∷◌, bytes_eq}
use bee_rpc_over_grpc_py.Outcome.{ok}
use bee_rpc_over_grpc_py.Environment.{
  HashFactory, hash_type_of, hasher_for, Environment, modify_env,
}
use bee_rpc_over_grpc_py.Environment.Algorithms.{
  IsConsistent, modify_env-IsConsistent, by_type, modify_env-by_type,
}

-- Two algorithms that are easy to compute with.
abbrev plain_hash : HashFactory
plain_hash content = 1 ∷ content

abbrev other_hash : HashFactory
other_hash content = 2 ∷ content

abbrev node : Environment
node = record {
  cache_dir = [];
  block_dir = 98 ∷ [];
  block_depth = 1;
  skip_wbp_generation = false;
  hash_factory = plain_hash;
  hash_type = 1 ∷ [];
  algorithms = (2 ∷ [], other_hash) ∷ (1 ∷ [], plain_hash) ∷ [];
  removed = [];
}

node-IsConsistent : IsConsistent node
unfolding hash_type_of
node-IsConsistent = record { named = (refl, (refl, tt)); typed = refl }

modify_env-IsConsistent_example : IsConsistent (modify_env (by_type (2 ∷ [])) node).0
modify_env-IsConsistent_example = modify_env-IsConsistent (by_type (2 ∷ [])) node node-IsConsistent

modify_env-by_type_example :
    ((modify_env (by_type (2 ∷ [])) node).1 ≡ ok tt)
    × ((modify_env (by_type (2 ∷ [])) node).0.hash_type ≡ 2 ∷ [])
    × ((modify_env (by_type (2 ∷ [])) node).0.hash_factory ≡ other_hash)
    × (hash_type_of (modify_env (by_type (2 ∷ [])) node).0.hash_factory ≡ 2 ∷ [])
    × ((modify_env (by_type (2 ∷ [])) node).0.removed ≡ (98 ∷ []) ∷ [])
unfolding hasher_for bytes_eq
modify_env-by_type_example = modify_env-by_type 2 [] node other_hash node-IsConsistent refl
