-- ===== src/Builder.antt =====
-- How an object with pointers becomes a multiblock directory: `search_on_message`,
-- `compute_real_lengths`, `generate_buffer`, `search_on_message_real`, `generate_id` and
-- `build_multiblock` (src/bee_rpc/block_builder.py). A protobuf message is what the library says of it:
-- the fields that `ListFields` gives, with the sizes that `ByteSize` gives. An element of a repeated
-- message field goes through the same steps as a message that is a field, and stands like one.
pub mod Identity
pub mod Fractal
mod Runs
use bee_rpc_over_grpc_py.Prelude.{
  ℕ, zero, suc, ◌+◌, ◌-◌, Bool, true, false, Option, none, some, List, [], ◌∷◌, ◌++◌, length, take,
  drop, ltb, leb, ◌==◌, if◌then◌else◌, not,
}
use bee_rpc_over_grpc_py.Outcome.{
  Result, ok, err, plain, not_found, index_error, type_error, ◌>>=◌, ◌>>◌,
}
use bee_rpc_over_grpc_py.Varint.{Bytes, encode_bytes, get_position_length}
use bee_rpc_over_grpc_py.Wire.{Block}
use bee_rpc_over_grpc_py.Environment.{Environment}
use bee_rpc_over_grpc_py.Store.{
  Json, num, text, array, nil, cons, numbers_json, Directory, Node, file, dir, Store, find_node,
  read_directory, read_block,
}
use bee_rpc_over_grpc_py.Store.Chunks.{collect}
use bee_rpc_over_grpc_py.Store.Sizes.{get_block_length}
use bee_rpc_over_grpc_py.Tree.{Tree, empty, leaf, branch, create_lengths_tree}
use bee_rpc_over_grpc_py.Driver.{Dict, get_key, set_key}
use bee_rpc_over_grpc_py.Driver.File.{append_lengths}
use bee_rpc_over_grpc_py.Creation.{get_hash, is_block, assert_container_covers_blocks}

-- A message with its size, a byte string, a text with its number of characters, and a field of
-- another kind with the size of a message that has this field alone.
pub data Fields : Type 0 where
  end : Fields
  message : ℕ → Fields → Fields → Fields
  bytes : Bytes → Fields → Fields
  text_field : ℕ → Fields → Fields
  primitive : ℕ → Fields → Fields

-- `len(encode_bytes(n))`
abbrev pub width : ℕ → ℕ
width n = length (encode_bytes n)

-- `container` and `pointer_lengths`
pub record Found : Type 0 where
  pub container : List (Bytes × List (List ℕ))
  pub pointer_lengths : Dict ℕ

abbrev pub RealLengths : Type 0
RealLengths = Dict (ℕ × (ℕ × Bool))

-- A level of the tree: the lengths so far, `total_tree_length` and `total_block_length`.
pub record Level : Type 0 where
  pub real_lengths : RealLengths
  pub total_tree_length : ℕ
  pub total_block_length : ℕ

abbrev pub new_level : Level
new_level = record { real_lengths = []; total_tree_length = 0; total_block_length = 0 }

-- `real_lengths[key] = …` and the two totals.
unfoldable pub add_length : ℕ → ℕ → ℕ → Bool → Level → Level
unfolding set_key encode_bytes
add_length key real_length block_length is_leaf l = record {
  real_lengths = set_key l.real_lengths key (real_length, (block_length, is_leaf));
  total_tree_length = l.total_tree_length + (real_length + width real_length + 1);
  total_block_length = l.total_block_length + (block_length + width block_length + 1);
}

-- `dict.update`
unfoldable pub update : RealLengths → RealLengths → RealLengths
unfolding set_key
update lengths [] = lengths
update lengths ((k, v) ∷ rest) = update (set_key lengths k v) rest

abbrev pub update_level : RealLengths → Level → Level
update_level inner l = record l { real_lengths = update l.real_lengths inner }

-- The end of `traverse_tree`.
unfoldable pub close_level : ℕ → Level → Result (ℕ × RealLengths)
close_level initial_total_length l =
    if ltb initial_total_length l.total_block_length
    then err plain
    else ok (l.total_tree_length + (initial_total_length - l.total_block_length), l.real_lengths)

abbrev pub or_index_error : Option ℕ → Result ℕ
or_index_error none = err index_error
or_index_error (some n) = ok n

-- A dictionary without one of its keys is an exception of the builder's.
abbrev pub or_plain : {A : Type 0} → Result A → Result A
or_plain (ok a) = ok a
or_plain (err e) = err plain

unfoldable pub insert_ascending : ℕ → ℕ × (ℕ × Bool) → RealLengths → RealLengths
insert_ascending k v [] = (k, v) ∷ []
insert_ascending k v ((k', v') ∷ rest) =
    let more = insert_ascending k v rest in
    if leb k k' then (k, v) ∷ (k', v') ∷ rest else (k', v') ∷ more

-- `dict(sorted(….items()))`
unfoldable pub sort_ascending : RealLengths → RealLengths
unfolding insert_ascending
sort_ascending [] = []
sort_ascending ((k, v) ∷ rest) = insert_ascending k v (sort_ascending rest)

-- The rest of the loop of `generate_buffer` from `i` on, with `new_buff`.
unfoldable pub buffer_loop : Bytes → RealLengths → ℕ → Bytes → List Bytes
unfolding encode_bytes
buffer_loop buffer [] i new_buff = drop i buffer ∷ []
buffer_loop buffer ((key, (real_length, (block_length, is_leaf))) ∷ lengths) i new_buff =
    let piece = new_buff ++ (drop i (take key buffer) ++ encode_bytes real_length) in
    let next = key + width block_length in
    let after_leaf = buffer_loop buffer lengths (next + block_length) [] in
    let after_branch = buffer_loop buffer lengths next piece in
    if is_leaf then piece ∷ after_leaf else after_branch

unfoldable pub generate_buffer : Bytes → RealLengths → List Bytes
unfolding buffer_loop
generate_buffer buffer lengths = buffer_loop buffer lengths 0 []

module _ (env : Environment) (store : Store) where
  unfoldable pub traverse_tree : Bytes → Dict ℕ → Tree → Level → Result Level
  unfolding add_length update close_level get_key get_position_length get_block_length
  traverse_tree buffer pointer_lengths empty l = ok l
  traverse_tree buffer pointer_lengths (leaf key id rest) l = do
    b_length ← or_plain (get_key pointer_lengths key)
    real_length ← get_block_length store id
    traverse_tree buffer pointer_lengths rest (add_length key real_length b_length true l)
  traverse_tree buffer pointer_lengths (branch key below rest) l = do
    initial_length ← or_index_error (get_position_length key buffer)
    inner ← traverse_tree buffer pointer_lengths below new_level
    (real_length, internal_lengths) ← close_level initial_length inner
    traverse_tree buffer pointer_lengths rest
        (update_level internal_lengths (add_length key real_length initial_length false l))

  unfoldable pub compute_real_lengths : Tree → Bytes → Dict ℕ → Result RealLengths
  unfolding traverse_tree sort_ascending
  compute_real_lengths tree buffer pointer_lengths = do
    level ← traverse_tree buffer pointer_lengths tree new_level
    (total, lengths) ← close_level (length buffer) level
    ok (sort_ascending lengths)

  -- What a block adds to the stream, as it stands in the registry: a directory is read with the
  -- blocks in it, a single file as it is.
  abbrev pub expansion : Option Node → Result Bytes
  expansion none = err not_found
  expansion (some (file content)) = ok content
  expansion (some (dir d)) =
      collect (read_directory env store (read_block env store (length store)) d true 1 d.metadata)

  abbrev pub contribution : Bytes → Result Bytes
  contribution [] = ok []
  contribution (c ∷ cs) = expansion (find_node store (c ∷ cs))

  -- What the hash object is fed: `zip_longest` of the parts and the blocks.
  unfoldable pub fed_to_id : List Bytes → List Bytes → Result Bytes
  unfolding find_node read_block collect
  fed_to_id [] [] = ok []
  fed_to_id (b ∷ buffers) [] = do rest ← fed_to_id buffers []; ok (b ++ rest)
  fed_to_id [] (id ∷ ids) = do
    content ← contribution id
    rest ← fed_to_id [] ids
    ok (content ++ rest)
  fed_to_id (b ∷ buffers) (id ∷ ids) = do
    content ← contribution id
    rest ← fed_to_id buffers ids
    ok (b ++ (content ++ rest))

  unfoldable pub generate_id : List Bytes → List Bytes → Result Bytes
  unfolding fed_to_id
  generate_id buffers block_ids = do fed ← fed_to_id buffers block_ids; ok (env.hash_factory fed)

  -- `ParseFromString` of a pointer, and the `ByteSize` of one.
  module _ (parse : Bytes → Option Block) (byte_size : Block → ℕ) (blocks : List Bytes)
      (inherited : Option (List Bytes)) where
    -- `block.ParseFromString(value)` and `get_hash`; `is_block` holds, so that it does parse.
    abbrev pub parsed : Option Block → Result (Block × Bytes)
    parsed none = err plain
    parsed (some block) = do id ← get_hash env block inherited; ok (block, id)

    abbrev pub add_pointer : List ℕ → ℕ → Bytes → Found → Result Found
    add_pointer pointers position value found = do
      (block, id) ← parsed (parse value)
      ok (record {
        container = append_lengths found.container id (pointers ++ ((position + 1) ∷ []));
        pointer_lengths = set_key found.pointer_lengths (position + 1) (length value);
      })

    unfoldable pub search_on_message : List ℕ → ℕ → Fields → Found → Result Found
    unfolding is_block get_hash append_lengths set_key encode_bytes
    search_on_message pointers position end found = ok found
    search_on_message pointers position (message size inner rest) found = do
      found' ←
          search_on_message (pointers ++ ((position + 1) ∷ [])) (position + 1 + width size) inner
            found
      search_on_message pointers (position + 1 + width size + size) rest found'
    search_on_message pointers position (bytes value rest) found = do
      found' ←
          if is_block env parse value blocks inherited
          then add_pointer pointers position value found
          else ok found
      search_on_message pointers (position + 1 + width (length value) + length value) rest found'
    search_on_message pointers position (text_field n rest) found =
        search_on_message pointers (position + 1 + width n + n) rest found
    search_on_message pointers position (primitive size rest) found =
        search_on_message pointers (position + size) rest found

    -- `container` of `search_on_message_real`.
    abbrev pub Walked : Type 0
    Walked = List (Bytes × List ℕ)

    -- The check of a block against the length that was computed for it.
    abbrev pub check_length : ℕ → Result (ℕ × (ℕ × Bool)) → Result (Unit {0})
    check_length block_length (err e) = err plain
    check_length block_length (ok (real_length, more)) =
        if real_length == block_length then ok tt else err plain

    -- A message whose length is known is gone into, another one is passed; `rest` gets what the real
    -- position advances by.
    abbrev pub around_message :
        Result (ℕ × (ℕ × Bool))
        → ℕ
        → (ℕ → Walked → Result Walked)
        → (ℕ → Walked → Result Walked)
        → Walked
        → Result Walked
    around_message (err e) size inner rest container = rest (1 + width size + size) container
    around_message (ok (message_size, more)) size inner rest container = do
      container' ← inner (1 + width message_size) container
      rest (1 + width message_size + message_size) container'

    -- A byte string, a pointer or not; `rest` gets what the two positions advance by.
    abbrev pub around_bytes :
        Bool
        → RealLengths
        → List ℕ
        → ℕ
        → ℕ
        → Bytes
        → (ℕ → ℕ → Walked → Result Walked)
        → Walked
        → Result Walked
    around_bytes false real_lengths pointers position real_position value rest container =
        rest (1 + width (length value) + length value) (1 + width (length value) + length value)
          container
    around_bytes true real_lengths pointers position real_position value rest container = do
      (block, id) ← parsed (parse value)
      block_length ← get_block_length store id
      checked ← check_length block_length (get_key real_lengths (position + 1))
      rest (1 + width (byte_size block) + byte_size block) (1 + width block_length + block_length)
          (container ++ ((id, pointers ++ ((real_position + 1) ∷ [])) ∷ []))

    unfoldable pub search_on_message_real :
        RealLengths → List ℕ → ℕ → ℕ → Fields → Walked → Result Walked
    unfolding is_block get_hash get_key encode_bytes get_block_length
    search_on_message_real real_lengths pointers position real_position end container = ok container
    search_on_message_real real_lengths pointers position real_position (message size inner rest)
          container =
        around_message (get_key real_lengths (position + 1)) size
          (λ advance.
            search_on_message_real real_lengths (pointers ++ ((real_position + 1) ∷ []))
              (position + 1 + width size) (real_position + advance) inner)
          (λ advance.
            search_on_message_real real_lengths pointers (position + 1 + width size + size)
              (real_position + advance) rest)
          container
    search_on_message_real real_lengths pointers position real_position (bytes value rest)
          container =
        around_bytes (is_block env parse value blocks inherited) real_lengths pointers position
          real_position value
          (λ advance real_advance.
            search_on_message_real real_lengths pointers (position + advance)
              (real_position + real_advance) rest)
          container
    search_on_message_real real_lengths pointers position real_position (text_field n rest)
          container =
        search_on_message_real real_lengths pointers (position + 1 + width n + n)
          (real_position + 1 + width n + n) rest container
    search_on_message_real real_lengths pointers position real_position (primitive size rest)
          container =
        search_on_message_real real_lengths pointers (position + size) (real_position + size) rest
          container

    -- The loop that writes the parts and `_json` from an index on; where there are more blocks than
    -- parts, `f.write(None)` raises.
    unfoldable pub write_parts : ℕ → List Bytes → Walked → Result (List (ℕ × Bytes) × List Json)
    write_parts i [] [] = ok ([], [])
    write_parts i [] (w ∷ container) = err type_error
    write_parts i (b ∷ buffers) [] = do
      (parts, entries) ← write_parts (suc i) buffers []
      ok ((suc i, b) ∷ parts, num (suc i) ∷ entries)
    write_parts i (b ∷ buffers) ((id, pointers) ∷ container) = do
      (parts, entries) ← write_parts (suc i) buffers container
      ok (
        (suc i, b) ∷ parts,
        num (suc i) ∷ array (cons (text id) (cons (array (numbers_json pointers)) nil)) ∷ entries,
      )

    abbrev pub names : {A : Type 0} → List (Bytes × A) → List Bytes
    names [] = []
    names ((name, a) ∷ rest) = name ∷ names rest

    -- The directory that is written, behind the id; `serialized` is what `SerializeToString` gives.
    unfoldable pub write_object : Bytes → List Bytes → Walked → Result (Bytes × Directory)
    unfolding generate_id write_parts
    write_object serialized new_buff container = do
      object_id ← generate_id new_buff (names container)
      (parts, entries) ← write_parts 0 new_buff container
      ok (object_id, record { metadata = some entries; parts = parts; wbp = some serialized })

    unfoldable pub build_multiblock : Bytes → Fields → Result (Bytes × Directory)
    unfolding search_on_message assert_container_covers_blocks create_lengths_tree
        compute_real_lengths generate_buffer search_on_message_real write_object
    build_multiblock serialized fields = do
      found ← search_on_message [] 0 fields (record { container = []; pointer_lengths = [] })
      covered ← assert_container_covers_blocks (names found.container) blocks
      tree ← create_lengths_tree found.container
      real_lengths ← compute_real_lengths tree serialized found.pointer_lengths
      container ← search_on_message_real real_lengths [] 0 0 fields []
      write_object serialized (generate_buffer serialized real_lengths) container
