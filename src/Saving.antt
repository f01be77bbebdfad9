-- ===== src/Saving.antt =====
-- How a received block is stored: `save_block_content`, `save_chunks_to_block` and
-- `save_chunks_to_file` (src/bee_rpc/client.py). A buffer iterator is the list of what is still to come,
-- and a function that takes from it returns the rest. The temporary directory beside the registry is
-- the value that is built; a call that raises drops it. The hash objects are what they were fed, the
-- innermost block's first. `signal.wait()` changes nothing and is left out. The recursion into blocks
-- is on fuel, since each level has a shorter stream.
pub mod Complete
pub mod Parts
pub mod Content
pub mod Blocks
mod Runs
use bee_rpc_over_grpc_py.Prelude.{
  ℕ, zero, suc, ◌+◌, Bool, true, false, Option, none, some, List, [], ◌∷◌, ◌++◌, length, bytes_eq,
  ltb, if◌then◌else◌,
}
use bee_rpc_over_grpc_py.Outcome.{
  Result, ok, err, plain, not_found, block_id_mismatch, recursion_error,
}
use bee_rpc_over_grpc_py.Trace.{Trace, stop, raise, next, size}
use bee_rpc_over_grpc_py.Varint.{Bytes}
use bee_rpc_over_grpc_py.Hex.{hex}
use bee_rpc_over_grpc_py.Wire.{Block, Buffer, chunk_of, nonempty}
use bee_rpc_over_grpc_py.Environment.{Environment}
use bee_rpc_over_grpc_py.Pointer.{resolve_hash_types, block_id_from_pointer}
use bee_rpc_over_grpc_py.Store.{
  Json, num, text, array, nil, cons, numbers_json, Directory, Node, file, dir, Store, find_part,
  block_exists, read_block,
}
use bee_rpc_over_grpc_py.Store.Chunks.{collect}
use bee_rpc_over_grpc_py.Driver.File.{generate_wbp_file}
use bee_rpc_over_grpc_py.Parser.{is_marker_of, block_key, stop_generator}
use bee_rpc_over_grpc_py.Step.{Step, pure, continue, ◌>>=◌}

-- `h.update(piece)` for every hash object.
abbrev pub feed : Bytes → List Bytes → List Bytes
feed piece [] = []
feed piece (h ∷ hs) = (h ++ piece) ∷ feed piece hs

-- What a function leaves of the stream, whether it has asked to the end of it, the hash objects, and
-- `_json`.
pub record Progress : Type 0 where
  pub input : Trace Buffer
  pub exhausted : Bool
  pub hashers : List Bytes
  pub entries : List Json

-- `if _json: _json.append(…)`
abbrev pub note_block : List Json → Bytes → Block → List Json
note_block [] block_id b = []
note_block (e ∷ es) block_id b =
    (e ∷ es)
    ++ (array (cons (text block_id) (cons (array (numbers_json b.previous_lengths_position)) nil))
        ∷ [])

-- How a file ends: whether the stream did, and what the file holds.
pub record Part : Type 0 where
  pub whole : Bool
  pub content : Bytes
  pub progress : Progress

abbrev pub SaveBlock : Type 0
SaveBlock = Buffer → Block → Progress → Step Progress

-- A marker ends the file; `rec` is `save_chunks_to_block`.
abbrev pub on_field : SaveBlock → Bytes → Buffer → Progress → Option Block → Step Part → Step Part
on_field rec written b p none later = later
on_field rec written b p (some block) later = do
  p' ← rec b block p
  pure (ok (record { whole = false; content = written; progress = p' }))

unfoldable pub file_loop : SaveBlock → Bytes → List Json → List Bytes → Trace Buffer → Step Part
file_loop rec written entries hashers stop = pure (
    ok (record {
      whole = true;
      content = written;
      progress = record { input = stop; exhausted = true; hashers = hashers; entries = entries };
    }))
file_loop rec written entries hashers (raise e) = pure (err e)
file_loop rec written entries hashers (next b input) =
    on_field rec written b
      (record { input = input; exhausted = false; hashers = hashers; entries = entries }) b.block
      (file_loop rec (written ++ chunk_of b.chunk) entries (feed (chunk_of b.chunk) hashers) input)

-- `prev` is written first.
unfoldable pub save_chunks_to_file : SaveBlock → Bytes → Progress → Step Part
unfolding file_loop
save_chunks_to_file rec prev p = file_loop rec prev p.entries (feed prev p.hashers) p.input

-- What the loop over the files has made: the files, and how it went on.
abbrev pub PartList : Type 0
PartList = List (ℕ × Bytes)

unfoldable pub content_loop :
    ℕ → SaveBlock → ℕ → Bytes → PartList → Progress → Step (PartList × Progress)
unfolding save_chunks_to_file
content_loop zero rec index prev files p = pure (err recursion_error)
content_loop (suc rounds) rec index prev files p = do
  part ← save_chunks_to_file rec prev (record p { entries = p.entries ++ (num index ∷ []) })
  let more = files ++ ((index, part.content) ∷ [])
  let later = content_loop rounds rec (suc index) [] more part.progress
  if part.whole then pure (ok (more, part.progress)) else later

-- The drain of a block that is held: up to its end marker, or to the end.
unfoldable pub skip_to_end : Bytes → Bytes → Trace Buffer → Result (Trace Buffer × Bool)
skip_to_end hash_type block_id stop = ok (stop, true)
skip_to_end hash_type block_id (raise e) = err e
skip_to_end hash_type block_id (next b input) =
    let later = skip_to_end hash_type block_id input in
    if is_marker_of block_id (block_key hash_type b.block) then ok (input, false) else later

module _ (env : Environment) (serialize : Block → Bytes) (wbp_fuel : ℕ) where
  -- The types that the pointers inside inherit, none where those of the marker do not resolve.
  abbrev pub types_of : Result (List Bytes) → Option (List Bytes)
  types_of (ok types) = some types
  types_of (err e) = none

  abbrev pub with_wbp : Directory → Result Bytes → Result Node
  with_wbp d (err e) = err e
  with_wbp d (ok bytes) = ok (dir (record d { wbp = some bytes }))

  abbrev pub file_node : Option Bytes → Result Node
  file_node none = err not_found
  file_node (some content) = ok (file content)

  abbrev pub dir_node : Block → Directory → Store → Result Node
  dir_node block d store =
      if env.skip_wbp_generation
      then ok (dir d)
      else with_wbp d (
          generate_wbp_file serialize env.hash_type store wbp_fuel d
            (types_of (resolve_hash_types block none)))

  -- A single file, or a directory with its `_.json` and its `wbp.bin`.
  abbrev pub ready : Block → PartList → List Json → Store → Result Node
  ready block parts [] store = file_node (find_part parts 1)
  ready block parts (e ∷ []) store = file_node (find_part parts 1)
  ready block parts (e ∷ e' ∷ es) store =
      dir_node block (record { metadata = some (e ∷ e' ∷ es); parts = parts; wbp = none }) store

  -- The new block, unless it was written meanwhile.
  abbrev pub publish : Bytes → Bool × Bool → Node → Step (Unit {0})
  publish block_id (true, is_dir) node store = (store, ok tt)
  publish block_id (false, is_dir) node store = ((block_id, node) ∷ store, ok tt)

  -- The hash object of the block is the first one.
  abbrev pub own_bytes : List Bytes → Bytes
  own_bytes [] = []
  own_bytes (h ∷ hs) = h

  abbrev pub outer : List Bytes → List Bytes
  outer [] = []
  outer (h ∷ hs) = hs

  -- What follows the loop over the files.
  abbrev pub finish_content : Block → Bytes → PartList → Progress → Step (List Bytes)
  finish_content block block_id parts p =
      if bytes_eq (hex (env.hash_factory (own_bytes p.hashers))) block_id
      then (do
        node ← λ store. (store, ready block parts p.entries store)
        done ← λ store. publish block_id (block_exists store block_id) node store
        pure (ok (outer p.hashers)))
      else pure (err block_id_mismatch)

  -- All of `input` is taken; the hash objects of the blocks around this one come back.
  unfoldable pub save_block_content :
      SaveBlock → Buffer → Block → Bytes → Trace Buffer → List Bytes → Step (List Bytes)
  unfolding content_loop resolve_hash_types generate_wbp_file find_part block_exists
  save_block_content rec b block block_id input hashers = do
    (parts, p) ←
        content_loop (suc (size input)) rec 1 (chunk_of b.chunk) []
          (record { input = input; exhausted = false; hashers = [] ∷ hashers; entries = [] })
    finish_content block block_id parts p

  -- The bytes of a block that is held go to the blocks around it.
  abbrev pub feed_held : Bytes → List Bytes → Step (List Bytes)
  feed_held block_id [] = pure (ok [])
  feed_held block_id (h ∷ hs) = do
    bytes ← λ store. (store, collect (read_block env store (suc (length store)) block_id true 1))
    pure (ok (feed bytes (h ∷ hs)))

  -- What follows the drain of a block that is held.
  abbrev pub after_drain : Bytes → Progress → Result (Trace Buffer × Bool) → Step Progress
  after_drain block_id p (err e) = pure (err e)
  after_drain block_id p (ok (rest, over)) = do
    hashers ← feed_held block_id p.hashers
    pure (ok (record p { input = rest; exhausted = over; hashers = hashers }))

  -- A block that is not held, and one that is.
  abbrev pub save_or_skip :
      SaveBlock → Buffer → Block → Bytes → Progress → Bool × Bool → Step Progress
  save_or_skip rec b block block_id p (false, is_dir) = do
    let (inner, (rest, over)) = stop_generator env.hash_type block_id p.input
    hashers ← save_block_content rec b block block_id inner p.hashers
    pure (ok (record p { input = rest; exhausted = over; hashers = hashers }))
  save_or_skip rec b block block_id p (true, is_dir) =
      after_drain block_id p (skip_to_end env.hash_type block_id p.input)

  abbrev pub save_named : SaveBlock → Buffer → Block → Progress → Option Bytes → Step Progress
  save_named rec b block p none = pure (err plain)
  save_named rec b block p (some []) = pure (err plain)
  save_named rec b block p (some (c ∷ cs)) = λ store.
      save_or_skip rec b block (c ∷ cs) (record p { entries = note_block p.entries (c ∷ cs) block })
        (block_exists store (c ∷ cs)) store

  unfoldable pub save_chunks_to_block : ℕ → SaveBlock
  unfolding save_block_content skip_to_end block_id_from_pointer stop_generator block_exists
      read_block collect
  save_chunks_to_block zero b block p = pure (err recursion_error)
  save_chunks_to_block (suc fuel) b block p =
      save_named (save_chunks_to_block fuel) b block p
        (block_id_from_pointer env.hash_type block none true)
