-- ===== src/Driver.antt =====
-- The stored form of an object in which pointers stand for its blocks: `compute_wbp_lengths`,
-- `set_varint_value`, `regenerate_buffer` and `generate_wbp_file` (src/bee_rpc/block_driver.py), and
-- `validate_lengths_tree` (src/bee_rpc/validate_lengths_tree.py). An integer that may be negative is
-- a pair of numbers and stands for their difference. `SerializeToString` is a parameter. The
-- messages given to `debug` are left out.
pub mod Rewriting
pub mod File
mod Runs
use bee_rpc_over_grpc_py.Prelude.{
  ℕ, zero, suc, ◌+◌, ◌-◌, Bool, true, false, not, Option, none, some, List, [], ◌∷◌, ◌++◌, length,
  map_option, bytes_eq, ltb, leb, if◌then◌else◌, ◌==◌, ◌&&◌,
}
use bee_rpc_over_grpc_py.Outcome.{
  Error, Result, ok, err, plain, not_found, value_error, index_error, key_error, type_error,
  lengths_error, ◌>>=◌, ◌>>◌,
}
use bee_rpc_over_grpc_py.Varint.{Bytes, encode_bytes, set_varint}
use bee_rpc_over_grpc_py.Wire.{Block}
use bee_rpc_over_grpc_py.Pointer.{block_pointer, block_pointer_length}
use bee_rpc_over_grpc_py.Store.{
  Json, num, text, array, other, Jsons, nil, cons, Directory, Node, file, dir, Store, find_node,
  find_part,
}
use bee_rpc_over_grpc_py.Store.Sizes.{getsize, get_pruned_block_length, part_size}
use bee_rpc_over_grpc_py.Tree.{Tree, empty, leaf, branch, create_lengths_tree}
use bee_rpc_over_grpc_py.Positions.{PathList, get_varint_at_position}

-- A dictionary from numbers: reading, and assigning, which keeps the place of a key that is there.
abbrev pub Dict : Type 0 → Type 0
Dict A = List (ℕ × A)

unfoldable pub get_key : {A : Type 0} → Dict A → ℕ → Result A
get_key [] k = err key_error
get_key ((k', v) ∷ rest) k = if k' == k then ok v else get_key rest k

unfoldable pub set_key : {A : Type 0} → Dict A → ℕ → A → Dict A
set_key [] k v = (k, v) ∷ []
set_key ((k', v') ∷ rest) k v =
    let more = set_key rest k v in if k' == k then (k, v) ∷ rest else (k', v') ∷ more

-- The positive and the negative part of an integer.
abbrev pub Difference : Type 0
Difference = ℕ × ℕ

-- The length without blocks, and the augmented pruned length.
abbrev pub Lengths : Type 0
Lengths = Dict (ℕ × Difference)

-- The entry of buffer: the bytes of a part, or the path of a block by its name.
pub data Piece : Type 0 where
  bytes : Bytes → Piece
  path : Bytes → Piece

-- The loop over a level below: its augmented lengths are summed, and each of its entries is taken
-- over with an augmented length of 0.
unfoldable pub absorb : Lengths → Difference → Lengths → Difference × Lengths
unfolding set_key
absorb [] pruned lengths = (pruned, lengths)
absorb ((k, (n, (p, q))) ∷ rest) pruned lengths =
    absorb rest (pruned.0 + p, pruned.1 + q) (set_key lengths k (n, (0, 0)))

-- The rest of the loop's body for one key.
unfoldable pub record_length : ℕ → ℕ → Difference × Lengths → Result Lengths
unfolding set_key encode_bytes
record_length key position_length ((p, q), lengths) =
    let wbp_length = position_length + q - p in
    if ltb (position_length + q) p
    then err plain
    else ok (
        set_key lengths key (
          wbp_length,
          (p + length (encode_bytes position_length), q + length (encode_bytes wbp_length)),
        ))

-- `file_list` and `pointer_lengths`, and the fuel of the positions.
module _ (store : Store) where
  module _ (fuel : ℕ) (file_list : PathList) (pointer_lengths : Dict ℕ) where
    abbrev pub pruned_by_pointer : ℕ → Bytes → Result Difference
    pruned_by_pointer key id = do
      pointer_length ← get_key pointer_lengths key
      get_pruned_block_length store id pointer_length

    unfoldable pub rec_compute_wbp_lengths : Tree → Lengths → Result Lengths
    unfolding absorb record_length get_key get_varint_at_position get_pruned_block_length
    rec_compute_wbp_lengths empty lengths = ok lengths
    rec_compute_wbp_lengths (leaf key id rest) lengths = do
      position_length ← get_varint_at_position store fuel key file_list
      pruned ← pruned_by_pointer key id
      lengths' ← record_length key position_length (pruned, lengths)
      rec_compute_wbp_lengths rest lengths'
    rec_compute_wbp_lengths (branch key below rest) lengths = do
      position_length ← get_varint_at_position store fuel key file_list
      inner ← rec_compute_wbp_lengths below []
      lengths' ← record_length key position_length (absorb inner (0, 0) lengths)
      rec_compute_wbp_lengths rest lengths'

    abbrev wbp_lengths : Lengths → Dict ℕ
    wbp_lengths [] = []
    wbp_lengths ((k, (n, d)) ∷ rest) = (k, n) ∷ wbp_lengths rest

    unfoldable pub compute_wbp_lengths : Tree → Result (Dict ℕ)
    unfolding rec_compute_wbp_lengths
    compute_wbp_lengths tree = do
      lengths ← rec_compute_wbp_lengths tree []
      ok (wbp_lengths lengths)

    -- `validate_lengths_tree`: the loops over the lists of one block, and over the blocks.
    abbrev last_pointer : List ℕ → Result ℕ
    last_pointer [] = err index_error
    last_pointer (p ∷ []) = ok p
    last_pointer (p ∷ q ∷ ps) = last_pointer (q ∷ ps)

    abbrev within : ℕ → Difference → Result (Unit {0})
    within position_length (p, q) = if ltb (position_length + q) p then err lengths_error else ok _

    unfoldable pub validate_lists : Bytes → List (List ℕ) → Result (Unit {0})
    unfolding get_key get_varint_at_position get_pruned_block_length
    validate_lists block_name [] = ok _
    validate_lists block_name (ps ∷ pss) = do
      key ← last_pointer ps
      position_length ← get_varint_at_position store fuel key file_list
      block_length ← pruned_by_pointer key block_name
      within position_length block_length >> validate_lists block_name pss

    unfoldable pub validate_lengths_tree : List (Bytes × List (List ℕ)) → Result (Unit {0})
    unfolding validate_lists
    validate_lengths_tree [] = ok _
    validate_lengths_tree ((block_name, pss) ∷ rest) =
        validate_lists block_name pss >> validate_lengths_tree rest

  abbrev put_bytes : List Piece → Option Bytes → Result (List Piece)
  put_bytes rest none = err index_error
  put_bytes rest (some b) = ok (bytes b ∷ rest)

  abbrev keep : Piece → Result (List Piece) → Result (List Piece)
  keep p (ok ps) = ok (p ∷ ps)
  keep p (err e) = err e

  -- The loop of `set_varint_value` over the buffer.
  unfoldable pub set_varint_loop : ℕ → ℕ → List Piece → ℕ → Result (List Piece)
  unfolding set_varint getsize find_node
  set_varint_loop offset varint_pos [] new_value = err plain
  set_varint_loop offset varint_pos (bytes b ∷ rest) new_value =
      let later = set_varint_loop (offset + length b) varint_pos rest new_value in
      if leb offset varint_pos && ltb varint_pos (offset + length b)
      then put_bytes rest (set_varint (varint_pos - offset) b new_value)
      else keep (bytes b) later
  set_varint_loop offset varint_pos (path id ∷ rest) new_value = do
    size ← getsize store (find_node store id)
    keep (path id) (set_varint_loop (offset + size) varint_pos rest new_value)

  unfoldable pub set_varint_value : ℕ → List Piece → ℕ → Result (List Piece)
  unfolding set_varint_loop
  set_varint_value varint_pos buffer new_value = set_varint_loop 0 varint_pos buffer new_value

  -- `sorted(…, reverse=True)` on the keys of a dictionary, which are all different.
  unfoldable pub insert_descending : ℕ × ℕ → Dict ℕ → Dict ℕ
  insert_descending (k, v) [] = (k, v) ∷ []
  insert_descending (k, v) ((k', v') ∷ rest) =
      let more = insert_descending (k, v) rest in
      if ltb k k' then (k', v') ∷ more else (k, v) ∷ (k', v') ∷ rest

  unfoldable pub sort_descending : Dict ℕ → Dict ℕ
  unfolding insert_descending
  sort_descending [] = []
  sort_descending (kv ∷ rest) = insert_descending kv (sort_descending rest)

  unfoldable pub set_all : Dict ℕ → List Piece → Result (List Piece)
  unfolding set_varint_value
  set_all [] buffer = ok buffer
  set_all ((varint_pos, new_value) ∷ rest) buffer = do
    buffer' ← set_varint_value varint_pos buffer new_value
    set_all rest buffer'

  module _ (serialize : Block → Bytes) (hash_type : Bytes) where
    abbrev or_value_error : {A : Type 0} → Option A → Result A
    or_value_error none = err value_error
    or_value_error (some a) = ok a

    abbrev pub piece_bytes : Bool → Piece → Result Bytes
    piece_bytes omit_types (bytes b) = ok b
    piece_bytes omit_types (path id) =
        or_value_error (map_option serialize (block_pointer hash_type id omit_types))

    unfoldable pub emit_pieces : Bool → List Piece → Result (List Bytes)
    unfolding block_pointer
    emit_pieces omit_types [] = ok []
    emit_pieces omit_types (p ∷ ps) = do
      b ← piece_bytes omit_types p
      bs ← emit_pieces omit_types ps
      ok (b ∷ bs)

    unfoldable pub regenerate_buffer : Dict ℕ → List Piece → Bool → Result (List Bytes)
    unfolding set_all sort_descending emit_pieces
    regenerate_buffer lengths buffer omit_types = do
      buffer' ← set_all (sort_descending lengths) buffer
      emit_pieces omit_types buffer'
