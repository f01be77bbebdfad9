-- ===== src/Builder/Fractal.antt =====
-- The builder that measures blocks by what is in them: `get_recursive_block_length`,
-- `compute_real_lengths_recursive` and `build_multiblock_fractal` (src/bee_rpc/block_builder.py). The
-- cache has `none` where the code has -1. `parse_object` is `Buffer().ParseFromString`, `none` its
-- DecodeError. The recursion into blocks is on fuel.
use bee_rpc_over_grpc_py.Prelude.{
  ℕ, zero, suc, ◌+◌, true, false, Option, none, some, List, [], ◌∷◌, length, bytes_eq,
  if◌then◌else◌,
}
use bee_rpc_over_grpc_py.Outcome.{Result, ok, err, plain, recursion_error, ◌>>=◌}
use bee_rpc_over_grpc_py.Varint.{Bytes, get_position_length}
use bee_rpc_over_grpc_py.Wire.{Block}
use bee_rpc_over_grpc_py.Environment.{Environment}
use bee_rpc_over_grpc_py.Store.{Directory, Node, file, dir, Store, find_node}
use bee_rpc_over_grpc_py.Store.Sizes.{get_expanded_block_length}
use bee_rpc_over_grpc_py.Tree.{Tree, empty, leaf, branch, create_lengths_tree}
use bee_rpc_over_grpc_py.Driver.{Dict, get_key}
use bee_rpc_over_grpc_py.Creation.{assert_container_covers_blocks}
use bee_rpc_over_grpc_py.Builder.{
  Fields, width, RealLengths, Level, new_level, add_length, update_level, close_level,
  or_index_error, or_plain, sort_ascending, generate_buffer, search_on_message,
  search_on_message_real, names, write_object,
}

abbrev pub Cache : Type 0
Cache = List (Bytes × Option ℕ)

unfoldable pub find_cached : Cache → Bytes → Option (Option ℕ)
find_cached [] id = none
find_cached ((id', n) ∷ rest) id = if bytes_eq id' id then some n else find_cached rest id

unfoldable pub set_cached : Cache → Bytes → Option ℕ → Cache
set_cached [] id n = (id, n) ∷ []
set_cached ((id', n') ∷ rest) id n =
    let more = set_cached rest id n in if bytes_eq id' id then (id, n) ∷ rest else (id', n') ∷ more

-- `sum(rl[0] + len(encode_bytes(rl[0])) + 1 for rl in inner_lengths.values())`
unfoldable pub total_of : RealLengths → ℕ
total_of [] = 0
total_of ((k, (n, more)) ∷ rest) = n + width n + 1 + total_of rest

-- `get_recursive_block_length` for the blocks of a level.
abbrev pub Measure : Type 0
Measure = Bytes → Cache → Result (ℕ × Cache)

unfoldable pub traverse_tree_recursive :
    Measure → Bytes → Dict ℕ → Tree → Level → Cache → Result (Level × Cache)
unfolding add_length close_level get_key get_position_length
traverse_tree_recursive measure buffer pointer_lengths empty l cache = ok (l, cache)
traverse_tree_recursive measure buffer pointer_lengths (leaf key id rest) l cache = do
  b_length ← or_plain (get_key pointer_lengths key)
  (real_length, cache') ← measure id cache
  traverse_tree_recursive measure buffer pointer_lengths rest
      (add_length key real_length b_length true l) cache'
traverse_tree_recursive measure buffer pointer_lengths (branch key below rest) l cache = do
  initial_length ← or_index_error (get_position_length key buffer)
  (inner, cache') ← traverse_tree_recursive measure buffer pointer_lengths below new_level cache
  (subtree_length, sub_lengths) ← close_level initial_length inner
  traverse_tree_recursive measure buffer pointer_lengths rest
      (update_level sub_lengths (add_length key subtree_length initial_length false l)) cache'

unfoldable pub compute_real_lengths_recursive :
    Measure → Tree → Bytes → Dict ℕ → Cache → Result (RealLengths × Cache)
unfolding traverse_tree_recursive sort_ascending
compute_real_lengths_recursive measure tree buffer pointer_lengths cache = do
  (level, cache') ← traverse_tree_recursive measure buffer pointer_lengths tree new_level cache
  (total, lengths) ← close_level (length buffer) level
  ok (sort_ascending lengths, cache')

module _ (env : Environment) (store : Store) (parse : Bytes → Option Block) (byte_size : Block → ℕ)
    (parse_object : Bytes → Option Fields) where
  -- The content of a single file: an object of which the blocks are measured, or bytes.
  abbrev pub measure_content : Measure → Bytes → Cache → Option Fields → Result (ℕ × Cache)
  measure_content measure content cache none = ok (length content, cache)
  measure_content measure content cache (some fields) = do
    found ←
        search_on_message env store parse byte_size [] none [] 0 fields
          (record { container = []; pointer_lengths = [] })
    tree ← create_lengths_tree found.container
    (lengths, cache') ←
        compute_real_lengths_recursive measure tree content found.pointer_lengths cache
    ok (total_of lengths, cache')

  abbrev pub measure_node : Measure → Bytes → Cache → Option Node → Result (ℕ × Cache)
  measure_node measure id cache none = err plain
  measure_node measure id cache (some (dir d)) = do
    n ← get_expanded_block_length store id
    ok (n, cache)
  measure_node measure id cache (some (file content)) =
      measure_content measure content cache (parse_object content)

  -- What is in the cache, or what is found and put there.
  abbrev pub measure_cached : Measure → Bytes → Cache → Option (Option ℕ) → Result (ℕ × Cache)
  measure_cached measure id cache (some none) = err plain
  measure_cached measure id cache (some (some n)) = ok (n, cache)
  measure_cached measure id cache none = do
    (n, cache') ← measure_node measure id (set_cached cache id none) (find_node store id)
    ok (n, set_cached cache' id (some n))

  unfoldable pub get_recursive_block_length : ℕ → Measure
  unfolding find_cached set_cached find_node search_on_message create_lengths_tree
      compute_real_lengths_recursive total_of get_expanded_block_length
  get_recursive_block_length zero id cache = err recursion_error
  get_recursive_block_length (suc fuel) id cache =
      measure_cached (get_recursive_block_length fuel) id cache (find_cached cache id)

  unfoldable pub build_multiblock_fractal :
      ℕ → List Bytes → Option (List Bytes) → Bytes → Fields → Result (Bytes × Directory)
  unfolding search_on_message assert_container_covers_blocks create_lengths_tree
      compute_real_lengths_recursive generate_buffer search_on_message_real write_object
      get_recursive_block_length
  build_multiblock_fractal fuel blocks inherited serialized fields = do
    found ←
        search_on_message env store parse byte_size blocks inherited [] 0 fields
          (record { container = []; pointer_lengths = [] })
    covered ←
        assert_container_covers_blocks
          (names env store parse byte_size blocks inherited found.container) blocks
    tree ← create_lengths_tree found.container
    (real_lengths, cache) ←
        compute_real_lengths_recursive (get_recursive_block_length fuel) tree serialized
          found.pointer_lengths []
    container ←
        search_on_message_real env store parse byte_size blocks inherited real_lengths [] 0 0 fields
          []
    write_object env store parse byte_size blocks inherited serialized
        (generate_buffer serialized real_lengths) container
