-- ===== src/Store.antt =====
-- The block registry on disk and how it is read (src/bee_rpc/reader.py: `block_exists`,
-- `read_file_by_chunks`, `read_multiblock_directory`, `_verify_single_file_block`, `read_block`,
-- `read_from_registry`). The directory `Enviroment.block_dir` is an association list from the names
-- in it, which are ids in hexadecimal, to single files and multiblock directories. The metadata file
-- `_.json` stands as the values that `json.load` returns. The recursion of the readers is on fuel;
-- without it there is the RecursionError of a directory that contains itself.
pub mod Chunks
pub mod Sizes
pub mod Expansion
pub mod Termination
pub mod Framing
mod Runs
use bee_rpc_over_grpc_py.Prelude.{
  ℕ, zero, suc, ◌+◌, ◌*◌, Bool, true, false, not, Option, none, some, List, [], ◌∷◌, length, take,
  drop, bytes_eq, ltb, ◌==◌, if◌then◌else◌,
}
use bee_rpc_over_grpc_py.Outcome.{
  Error, Result, ok, err, plain, not_found, value_error, index_error, type_error, recursion_error,
}
use bee_rpc_over_grpc_py.Trace.{Trace, stop, raise, next, ◌then_from◌}
use bee_rpc_over_grpc_py.Varint.{Bytes}
use bee_rpc_over_grpc_py.Hex.{hex}
use bee_rpc_over_grpc_py.Wire.{Block, Buffer, empty_buffer}
use bee_rpc_over_grpc_py.Environment.{Environment}
use bee_rpc_over_grpc_py.Pointer.{block_pointer}

mutual
  pub data Json : Type 0 where
    num : ℕ → Json
    text : Bytes → Json
    array : Jsons → Json
    other : Json

  pub data Jsons : Type 0 where
    nil : Jsons
    cons : Json → Jsons → Jsons

abbrev pub numbers_json : List ℕ → Jsons
numbers_json [] = nil
numbers_json (n ∷ ns) = cons (num n) (numbers_json ns)

-- The entries `_.json`, if that file is there, the numbered parts, and `wbp.bin`.
pub record Directory : Type 0 where
  pub metadata : Option (List Json)
  pub parts : List (ℕ × Bytes)
  pub wbp : Option Bytes

pub data Node : Type 0 where
  file : Bytes → Node
  dir : Directory → Node

abbrev pub Store : Type 0
Store = List (Bytes × Node)

unfoldable pub find_node : Store → Bytes → Option Node
find_node [] id = none
find_node ((name, node) ∷ rest) id = if bytes_eq name id then some node else find_node rest id

unfoldable pub find_part : List (ℕ × Bytes) → ℕ → Option Bytes
find_part [] n = none
find_part ((i, content) ∷ rest) n = if i == n then some content else find_part rest n

-- Whether the block is there, and whether it is a directory.
abbrev pub shape : Option Node → Bool × Bool
shape none = (false, false)
shape (some (file c)) = (true, false)
shape (some (dir d)) = (true, true)

unfoldable pub block_exists : Store → Bytes → Bool × Bool
unfolding find_node
block_exists store block_id = shape (find_node store block_id)

abbrev pub chunk_size : ℕ
chunk_size = 1024 * 1024

-- `f.read(CHUNK_SIZE)` until it returns nothing; each round takes a byte at least, so as many rounds
-- as there are bytes are enough.
unfoldable pub chunk_loop : ℕ → Bytes → Trace Bytes
chunk_loop fuel [] = stop
chunk_loop zero (b ∷ bs) = stop
chunk_loop (suc fuel) (b ∷ bs) =
    next (take chunk_size (b ∷ bs)) (chunk_loop fuel (drop chunk_size (b ∷ bs)))

-- An exception, such as that of a file that is missing, is caught and ends the generator.
abbrev pub read_file_by_chunks : Option Bytes → Trace Bytes
read_file_by_chunks none = stop
read_file_by_chunks (some content) = chunk_loop (length content) content

-- The readers yield bytes and, where the blocks are framed, their markers.
pub data Item : Type 0 where
  piece : Bytes → Item
  marker : Block → Item

abbrev pub pieces : Trace Bytes → Trace Item
pieces stop = stop
pieces (raise e) = raise e
pieces (next c t) = next (piece c) (pieces t)

-- `e[0]` and `e[1]`
unfoldable pub first_item : Json → Result Json
first_item (array (cons x xs)) = ok x
first_item (array nil) = err index_error
first_item (text (c ∷ cs)) = ok (text (c ∷ []))
first_item (text []) = err index_error
first_item _ = err type_error

unfoldable pub second_item : Json → Result Json
second_item (array (cons x (cons y ys))) = ok y
second_item (array _) = err index_error
second_item (text (c ∷ d ∷ ds)) = ok (text (d ∷ []))
second_item (text _) = err index_error
second_item _ = err type_error

abbrev push : Json → Result (List ℕ) → Result (List ℕ)
push (num n) (ok ns) = ok (n ∷ ns)
push (num n) (err e) = err e
push _ r = err type_error

abbrev numbers : Jsons → Result (List ℕ)
numbers nil = ok []
numbers (cons x xs) = push x (numbers xs)

-- What `previous_lengths_position.extend` takes of a JSON value.
abbrev pub positions : Result Json → Result (List ℕ)
positions (ok (array xs)) = numbers xs
positions (ok (text [])) = ok []
positions (ok _) = err type_error
positions (err e) = err e

-- The settings that the readers consult, and the registry.
module _ (env : Environment) (store : Store) where
  unfoldable pub verify_single_file_block : Bytes → Bytes → Bool
  verify_single_file_block content block_id = bytes_eq (hex (env.hash_factory content)) block_id

  -- The block between its two markers.
  abbrev pub framed : Option Block → Result (List ℕ) → Trace Item → Trace Item
  framed none ps body = raise value_error
  framed (some b) (err e) body = raise e
  framed (some b) (ok ps) body =
      let m = record b { previous_lengths_position = ps } in
      next (marker m) (body then_from next (marker m) stop)

  -- An entry that is no number; `rec` is `read_block`.
  abbrev pub read_reference :
      (Bytes → Bool → ℕ → Trace Item) → Bool → ℕ → Result Json → Result (List ℕ) → Trace Item
  read_reference rec ignore_blocks depth (err e) ps = raise e
  read_reference rec ignore_blocks depth (ok (text id)) ps =
      if ignore_blocks
      then rec id true 1
      else framed (block_pointer env.hash_type id false) ps
          (rec id (not (ltb depth env.block_depth)) (suc depth))
  read_reference rec ignore_blocks depth (ok _) ps = raise plain

  abbrev pub read_entry : (Bytes → Bool → ℕ → Trace Item) → Directory → Bool → ℕ → Json → Trace Item
  read_entry rec d ignore_blocks depth (num n) = pieces (read_file_by_chunks (find_part d.parts n))
  read_entry rec d ignore_blocks depth e =
      read_reference rec ignore_blocks depth (first_item e) (positions (second_item e))

  unfoldable pub read_entries :
      (Bytes → Bool → ℕ → Trace Item) → Directory → Bool → ℕ → List Json → Trace Item
  unfolding first_item second_item find_part chunk_loop
  read_entries rec d ignore_blocks depth [] = stop
  read_entries rec d ignore_blocks depth (e ∷ es) =
      read_entry rec d ignore_blocks depth e then_from read_entries rec d ignore_blocks depth es

  abbrev pub read_directory :
      (Bytes → Bool → ℕ → Trace Item) → Directory → Bool → ℕ → Option (List Json) → Trace Item
  read_directory rec d ignore_blocks depth none = raise not_found
  read_directory rec d ignore_blocks depth (some es) = read_entries rec d ignore_blocks depth es

  abbrev pub read_node :
      (Bytes → Bool → ℕ → Trace Item) → Bytes → Bool → ℕ → Option Node → Trace Item
  read_node rec block_id ignore_blocks depth none = raise plain
  read_node rec block_id ignore_blocks depth (some (file c)) =
      if verify_single_file_block c block_id
      then pieces (read_file_by_chunks (some c))
      else raise plain
  read_node rec block_id ignore_blocks depth (some (dir d)) =
      read_directory rec d ignore_blocks depth d.metadata

  unfoldable pub read_block : ℕ → Bytes → Bool → ℕ → Trace Item
  unfolding read_entries verify_single_file_block find_node
  read_block zero block_id ignore_blocks depth = raise recursion_error
  read_block (suc fuel) block_id ignore_blocks depth =
      read_node (read_block fuel) block_id ignore_blocks depth (find_node store block_id)

  abbrev pub to_buffers : Trace Item → Trace Buffer
  to_buffers stop = stop
  to_buffers (raise e) = raise e
  to_buffers (next (piece c) t) = next (record empty_buffer { chunk = some c }) (to_buffers t)
  to_buffers (next (marker b) t) = next (record empty_buffer { block = some b }) (to_buffers t)

  -- A path outside the registry: a multiblock directory, a single file, or nothing.
  unfoldable pub read_from_registry : ℕ → Option Node → Trace Buffer
  unfolding read_block
  read_from_registry fuel (some (dir d)) =
      to_buffers (read_directory (read_block fuel) d false 1 d.metadata)
  read_from_registry fuel (some (file c)) = to_buffers (pieces (read_file_by_chunks (some c)))
  read_from_registry fuel none = stop
