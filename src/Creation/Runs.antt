-- ===== src/Creation/Runs.antt =====
-- Concrete runs, and the theorems at concrete inputs.
use bee_rpc_over_grpc_py.Prelude.{◌≡◌, refl, true, false, [], ◌∷◌, bytes_eq, arith}
use bee_rpc_over_grpc_py.Outcome.{ok, err, plain, not_found}
use bee_rpc_over_grpc_py.Hex.{hex}
use bee_rpc_over_grpc_py.Environment.{Environment}
use bee_rpc_over_grpc_py.Pointer.{pointer_of_bytes}
use bee_rpc_over_grpc_py.Store.{find_node, read_block}
use bee_rpc_over_grpc_py.Store.Chunks.{collect}
use bee_rpc_over_grpc_py.Store.Expansion.{IsIntact}
use bee_rpc_over_grpc_py.Creation.{Disk, find_file, create_block, assert_container_covers_blocks}
use bee_rpc_over_grpc_py.Creation.ReadBack.{create_block-read_block, create_block-IsIntact}

abbrev node : Environment
node = record {
  cache_dir = [];
  block_dir = [];
  block_depth = 1;
  skip_wbp_generation = false;
  hash_factory = λ content. 1 ∷ content;
  hash_type = 1 ∷ [];
  algorithms = [];
  removed = [];
}

-- A file named `a` that holds the bytes 7 and 8, and an empty registry.
abbrev disk : Disk
disk = record { files = (97 ∷ [], 7 ∷ 8 ∷ []) ∷ []; store = [] }

empty-IsIntact : IsIntact node []
unfolding find_node
empty-IsIntact id content h = cc

missing_file : (create_block node disk true (98 ∷ []) false).1 ≡ err not_found
unfolding create_block bytes_eq
missing_file = refl

broken_disk : (create_block node disk false (97 ∷ []) true).1 ≡ err plain
unfolding create_block bytes_eq find_node
broken_disk = refl

uncovered :
    assert_container_covers_blocks (hex (1 ∷ []) ∷ []) ((1 ∷ []) ∷ (2 ∷ []) ∷ []) ≡ err plain
unfolding assert_container_covers_blocks bytes_eq
uncovered = refl

create_block-read_block_example :
    ((create_block node disk true (97 ∷ []) false).1
      ≡ ok (1 ∷ 7 ∷ 8 ∷ [], pointer_of_bytes (1 ∷ []) (1 ∷ 7 ∷ 8 ∷ []) false))
    × (collect (
          read_block node
            (create_block node disk true (97 ∷ []) false).0.store
            1
            (hex (1 ∷ 7 ∷ 8 ∷ []))
            true
            1)
        ≡ ok (7 ∷ 8 ∷ []))
unfolding find_file find_node bytes_eq
create_block-read_block_example =
    create_block-read_block node disk false (97 ∷ []) (7 ∷ 8 ∷ []) 0 1 refl
      (omega arith, (omega arith, (omega arith, tt))) refl

create_block-IsIntact_example : IsIntact node (create_block node disk true (97 ∷ []) true).0.store
unfolding find_file find_node bytes_eq
create_block-IsIntact_example =
    create_block-IsIntact node disk true (97 ∷ []) (7 ∷ 8 ∷ []) refl
      (omega arith, (omega arith, (omega arith, tt))) refl empty-IsIntact
