-- ===== src/Builder/Runs.antt =====
-- Concrete runs, and the theorems at concrete inputs.
use bee_rpc_over_grpc_py.Prelude.{
  ℕ, ◌≡◌, refl, true, false, Option, some, none, [], ◌∷◌, bytes_eq, Bool-cases, inl, inr,
  if◌then◌else◌,
}
use bee_rpc_over_grpc_py.Outcome.{ok, err, plain}
use bee_rpc_over_grpc_py.Varint.{Bytes, encode_bytes}
use bee_rpc_over_grpc_py.Hex.{hex}
use bee_rpc_over_grpc_py.Wire.{Block}
use bee_rpc_over_grpc_py.Environment.{Environment}
use bee_rpc_over_grpc_py.Pointer.{pointer_of_bytes}
use bee_rpc_over_grpc_py.Store.{
  num, text, array, nil, cons, Directory, file, Store, find_node, verify_single_file_block,
  read_directory, read_block,
}
use bee_rpc_over_grpc_py.Store.Chunks.{collect}
use bee_rpc_over_grpc_py.Store.Expansion.{IsIntact}
use bee_rpc_over_grpc_py.Builder.{update, Fields, end, message, bytes, primitive, build_multiblock}
use bee_rpc_over_grpc_py.Builder.Fractal.{get_recursive_block_length, build_multiblock_fractal}
use bee_rpc_over_grpc_py.Builder.Identity.{build_multiblock-Reads}

abbrev node : Environment
node = record {
  cache_dir = [];
  block_dir = [];
  block_depth = 1;
  skip_wbp_generation = false;
  hash_factory = λ content. 1 ∷ content;
  hash_type = 1 ∷ [];
  algorithms = [];
  removed = [];
}

-- A block of three bytes; the bytes 5 and 5 stand for the pointer to it.
abbrev block_id : Bytes
block_id = hex (1 ∷ 7 ∷ 8 ∷ 9 ∷ [])

abbrev store : Store
store = (block_id, file (7 ∷ 8 ∷ 9 ∷ [])) ∷ []

abbrev parse : Bytes → Option Block
parse value =
    if bytes_eq value (5 ∷ 5 ∷ [])
    then some (pointer_of_bytes (1 ∷ []) (1 ∷ 7 ∷ 8 ∷ 9 ∷ []) false)
    else none

abbrev byte_size : Block → ℕ
byte_size b = 2

-- A message in a message: the pointer, and a number behind it.
abbrev fields : Fields
fields = message 6 (bytes (5 ∷ 5 ∷ []) (primitive 2 end)) end

abbrev serialized : Bytes
serialized = 10 ∷ 6 ∷ 18 ∷ 2 ∷ 5 ∷ 5 ∷ 24 ∷ 1 ∷ []

abbrev built : Directory
built = record {
  metadata = some (
      num 1
      ∷ array (cons (text block_id) (cons (array (cons (num 1) (cons (num 3) nil))) nil))
      ∷ num 2
      ∷ []);
  parts = (1, 10 ∷ 7 ∷ 18 ∷ 3 ∷ []) ∷ (2, 24 ∷ 1 ∷ []) ∷ [];
  wbp = some serialized;
}

store-IsIntact : IsIntact node store
unfolding find_node verify_single_file_block
store-IsIntact id content h = elim (Bool-cases (bytes_eq block_id id)) [
  | inl here ↦ cc (rw here at h)
  | inr there ↦ cc (rw there at h)
]

uncovered :
    build_multiblock node [] parse byte_size
      ((1 ∷ 7 ∷ 8 ∷ 9 ∷ []) ∷ [])
      none
      serialized
      (primitive 2 end)
    ≡ err plain
unfolding build_multiblock hex
uncovered = refl

build_multiblock-Reads_example :
    (bs : Bytes) × (collect
        (read_directory node store (read_block node store 2) built true 1 built.metadata)
      ≡ ok bs)
    × (1 ∷ bs ≡ 1 ∷ 10 ∷ 7 ∷ 18 ∷ 3 ∷ 7 ∷ 8 ∷ 9 ∷ 24 ∷ 1 ∷ [])
unfolding build_multiblock hex find_node pointer_of_bytes bytes_eq encode_bytes
build_multiblock-Reads_example =
    build_multiblock-Reads node store store-IsIntact parse byte_size ((1 ∷ 7 ∷ 8 ∷ 9 ∷ []) ∷ [])
      none refl serialized fields (1 ∷ 10 ∷ 7 ∷ 18 ∷ 3 ∷ 7 ∷ 8 ∷ 9 ∷ 24 ∷ 1 ∷ []) built refl

-- The content of a block parses as an object: its recursive length is 0, and not 3.
lost_length :
    get_recursive_block_length node store parse byte_size
      (λ content. some (primitive 3 end))
      1
      block_id
      []
    ≡ ok (0, (block_id, some 0) ∷ [])
unfolding get_recursive_block_length bytes_eq hex
lost_length = refl

-- So an object that points to it cannot be built.
not_built :
    build_multiblock_fractal node store parse byte_size
      (λ content. some (primitive 3 end))
      1
      ((1 ∷ 7 ∷ 8 ∷ 9 ∷ []) ∷ [])
      none
      serialized
      fields
    ≡ err plain
unfolding build_multiblock_fractal hex find_node pointer_of_bytes bytes_eq encode_bytes update
not_built = refl
