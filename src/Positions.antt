-- ===== src/Positions.antt =====
-- Positions in the expanded stream of a stored object: `entries_of_multiblock_directory`,
-- `seek_expanded_position` and `get_varint_at_position` (src/bee_rpc/utils.py). A path is what stands
-- at it: nothing, a single file or a directory. The recursion into directories is on fuel.
pub mod Layout
mod Runs
use bee_rpc_over_grpc_py.Prelude.{
  ℕ, zero, suc, ◌+◌, ◌-◌, Option, none, some, List, [], ◌∷◌, drop, ltb, map_option, if◌then◌else◌,
}
use bee_rpc_over_grpc_py.Outcome.{
  Error, Result, ok, err, not_found, value_error, type_error, recursion_error, ◌>>=◌,
}
use bee_rpc_over_grpc_py.Varint.{Bytes, varint_loop}
use bee_rpc_over_grpc_py.Store.{
  Json, num, text, array, other, Directory, Node, file, dir, Store, find_node, find_part,
  first_item,
}
use bee_rpc_over_grpc_py.Store.Sizes.{getsize}

abbrev pub PathList : Type 0
PathList = List (Option Node)

module _ (store : Store) where
  abbrev block_path : Result Json → Result (Option Node)
  block_path (ok (text id)) = ok (find_node store id)
  block_path (ok _) = err type_error
  block_path (err e) = err e

  abbrev entry_path : Directory → Json → Result (Option Node)
  entry_path d (num n) = ok (map_option file (find_part d.parts n))
  entry_path d e = block_path (first_item e)

  abbrev entry_paths : Directory → List Json → Result PathList
  entry_paths d [] = ok []
  entry_paths d (e ∷ es) = do p ← entry_path d e; ps ← entry_paths d es; ok (p ∷ ps)

  abbrev json_paths : Directory → Option (List Json) → Result PathList
  json_paths d none = err not_found
  json_paths d (some es) = entry_paths d es

  unfoldable pub entries_of_multiblock_directory : Directory → Result PathList
  unfolding find_node find_part first_item
  entries_of_multiblock_directory d = json_paths d d.metadata

  -- The position is in this path; `rec` is the function itself. A single file comes back as its
  -- content.
  abbrev pub seek_within :
      (ℕ → PathList → Result (Bytes × ℕ)) → Option Node → ℕ → Result (Bytes × ℕ)
  seek_within rec none position = err not_found
  seek_within rec (some (file content)) position = ok (content, position)
  seek_within rec (some (dir d)) position = entries_of_multiblock_directory d >>= rec position

  unfoldable pub seek_loop : (ℕ → PathList → Result (Bytes × ℕ)) → ℕ → PathList → Result (Bytes × ℕ)
  unfolding getsize entries_of_multiblock_directory
  seek_loop rec remaining [] = err value_error
  seek_loop rec remaining (path ∷ paths) = do
    length ← getsize store path
    let later = seek_loop rec (remaining - length) paths
    if ltb remaining length then seek_within rec path remaining else later

  unfoldable pub seek_expanded_position : ℕ → ℕ → PathList → Result (Bytes × ℕ)
  unfolding seek_loop
  seek_expanded_position zero position file_list = err recursion_error
  seek_expanded_position (suc fuel) position file_list =
      seek_loop (seek_expanded_position fuel) position file_list

  unfoldable pub get_varint_at_position : ℕ → ℕ → PathList → Result ℕ
  unfolding seek_expanded_position varint_loop
  get_varint_at_position fuel position file_list = do
    (content, offset) ← seek_expanded_position fuel position file_list
    ok (varint_loop (drop offset content) 0 0)
