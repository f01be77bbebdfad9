-- ===== src/Copying/Runs.antt =====
-- Concrete runs, and the theorems at concrete inputs.
use bee_rpc_over_grpc_py.Prelude.{
  Bool, ◌≡◌, refl, true, false, Option, none, some, [], ◌∷◌, bytes_eq, ◌⊎◌, if◌then◌else◌,
}
use bee_rpc_over_grpc_py.Outcome.{ok}
use bee_rpc_over_grpc_py.Varint.{Bytes}
use bee_rpc_over_grpc_py.Hex.{hex}
use bee_rpc_over_grpc_py.Wire.{Block}
use bee_rpc_over_grpc_py.Environment.{Environment}
use bee_rpc_over_grpc_py.Pointer.{pointer_of_bytes}
use bee_rpc_over_grpc_py.Store.{
  Store, file, find_node, block_exists, read_block, verify_single_file_block,
}
use bee_rpc_over_grpc_py.Store.Chunks.{collect}
use bee_rpc_over_grpc_py.Creation.{Files, find_file}
use bee_rpc_over_grpc_py.Copying.{block_named, copy_block_if_exists}
use bee_rpc_over_grpc_py.Copying.Outcomes.{copy_block_if_exists_fails_closed}

abbrev node : Environment
node = record {
  cache_dir = [];
  block_dir = [];
  block_depth = 1;
  skip_wbp_generation = false;
  hash_factory = λ content. 1 ∷ content;
  hash_type = 1 ∷ [];
  algorithms = [];
  removed = [];
}

-- The block 7, 8, and one that was torn; the byte 5 points to the first, and 6 to the second.
abbrev store : Store
store = (hex (1 ∷ 7 ∷ 8 ∷ []), file (7 ∷ 8 ∷ [])) ∷ (hex (1 ∷ 9 ∷ 9 ∷ []), file (9 ∷ [])) ∷ []

abbrev parse : Bytes → Option Block
parse value =
    if bytes_eq value (5 ∷ [])
    then some (pointer_of_bytes (1 ∷ []) (1 ∷ 7 ∷ 8 ∷ []) false)
    else if bytes_eq value (6 ∷ [])
    then some (pointer_of_bytes (1 ∷ []) (1 ∷ 9 ∷ 9 ∷ []) false)
    else none

copied :
    copy_block_if_exists node store parse true [] (5 ∷ []) (97 ∷ []) none
    ≡ ((97 ∷ [], 7 ∷ 8 ∷ []) ∷ [], true)
unfolding copy_block_if_exists hex bytes_eq pointer_of_bytes find_node verify_single_file_block
copied = refl

torn : copy_block_if_exists node store parse true [] (6 ∷ []) (97 ∷ []) none ≡ ([], false)
unfolding copy_block_if_exists hex bytes_eq pointer_of_bytes find_node verify_single_file_block
torn = refl

abbrev ran : Files × Bool
ran = copy_block_if_exists node store parse true [] (5 ∷ []) (97 ∷ []) none

copy_block_if_exists_fails_closed_example :
    ((ran.1 ≡ false) × (ran.0 ≡ []))
    ⊎ ((id : Bytes) × (content : Bytes) × (ran.1 ≡ true)
        × (block_named node store parse true none (parse (5 ∷ [])) ≡ some id)
        × (collect (read_block node store 3 id true 1) ≡ ok content)
        × (find_file ran.0 (97 ∷ []) ≡ some content)
        × (((block_exists store id).1 ≡ true) ⊎ (hex (1 ∷ content) ≡ id)))
copy_block_if_exists_fails_closed_example =
    copy_block_if_exists_fails_closed node store parse true [] (5 ∷ []) (97 ∷ []) none
