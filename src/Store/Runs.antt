-- ===== src/Store/Runs.antt =====
-- Concrete runs, and the theorems at concrete inputs.
use bee_rpc_over_grpc_py.Prelude.{
  ◌≡◌, ◌≢◌, refl, true, false, none, some, [], ◌∷◌, bytes_eq, contains, Bool-cases, inl, inr,
}
use bee_rpc_over_grpc_py.Outcome.{ok, err, plain, recursion_error}
use bee_rpc_over_grpc_py.Varint.{Bytes}
use bee_rpc_over_grpc_py.Hex.{hex, from_hex}
use bee_rpc_over_grpc_py.Environment.{Environment}
use bee_rpc_over_grpc_py.Pointer.{block_pointer}
use bee_rpc_over_grpc_py.Store.{
  num, text, array, nil, cons, Directory, file, dir, Store, find_node, verify_single_file_block,
  read_block,
}
use bee_rpc_over_grpc_py.Store.Sizes.{get_expanded_block_length}
use bee_rpc_over_grpc_py.Store.Chunks.{collect}
use bee_rpc_over_grpc_py.Store.Expansion.{IsIntact, Emits, get_expanded_block_length-read_block}
use bee_rpc_over_grpc_py.Store.Framing.{collect-read_block_flat}
use bee_rpc_over_grpc_py.Store.Termination.{get_expanded_block_length_ends}

-- A hash that is easy to compute with.
abbrev node : Environment
node = record {
  cache_dir = [];
  block_dir = [];
  block_depth = 2;
  skip_wbp_generation = false;
  hash_factory = λ content. 1 ∷ content;
  hash_type = 1 ∷ [];
  algorithms = [];
  removed = [];
}

-- The id of the single file that holds the bytes 7 and 8.
abbrev id_file : Bytes
id_file = hex (1 ∷ 7 ∷ 8 ∷ [])

abbrev id_dir : Bytes
id_dir = hex (0xdd ∷ [])

abbrev outer_dir : Directory
outer_dir = record {
  metadata = some (
      num 1
      ∷ array (cons (text id_file) (cons (array (cons (num 0) nil)) nil))
      ∷ array (cons (text id_file) (cons (array (cons (num 0) nil)) nil))
      ∷ []);
  parts = (1, 5 ∷ []) ∷ [];
  wbp = none;
}

abbrev store : Store
store = (id_file, file (7 ∷ 8 ∷ [])) ∷ (id_dir, dir outer_dir) ∷ []

-- A directory that refers to itself.
abbrev looping : Store
looping =
    (
      id_dir,
      dir (record {
        metadata = some (array (cons (text id_dir) (cons (array nil) nil)) ∷ []);
        parts = [];
        wbp = none;
      }),
    )
    ∷ []

store-IsIntact : IsIntact node store
unfolding find_node verify_single_file_block
store-IsIntact id content h = elim (Bool-cases (bytes_eq id_file id)) [
  | inl here ↦ cc (rw here at h)
  | inr there ↦ elim (Bool-cases (bytes_eq id_dir id)) [
    | inl found ↦ cc (rw (there, found) at h)
    | inr missing ↦ cc (rw (there, missing) at h)
  ]
]

loop_found : get_expanded_block_length looping id_dir ≡ err plain
unfolding get_expanded_block_length bytes_eq contains hex
loop_found = refl

get_expanded_block_length-read_block_example : Emits (read_block node store 3 id_dir true 1) 5
unfolding get_expanded_block_length bytes_eq contains hex
get_expanded_block_length-read_block_example =
    get_expanded_block_length-read_block node store id_dir 5 1 store-IsIntact refl

collect-read_block_flat_example :
    collect (read_block node store 3 id_dir true 1) ≡ ok (5 ∷ 7 ∷ 8 ∷ 7 ∷ 8 ∷ [])
unfolding collect read_block block_pointer bytes_eq contains hex from_hex
collect-read_block_flat_example =
    collect-read_block_flat node store 3 id_dir false 1 (5 ∷ 7 ∷ 8 ∷ 7 ∷ 8 ∷ []) refl

get_expanded_block_length_ends_example :
    get_expanded_block_length looping id_dir ≢ err recursion_error
get_expanded_block_length_ends_example = get_expanded_block_length_ends looping id_dir
