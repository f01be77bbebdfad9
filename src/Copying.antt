-- ===== src/Copying.antt =====
-- `copy_block_if_exists` (src/bee_rpc/client.py): the bytes of a field are replaced by the block that
-- they point to. The content is written to a temporary file beside the target, which a failure
-- removes, so only the target stands here. Any exception in between ends in `False`. `works` says
-- whether the system calls on the temporary file succeed; `ParseFromString` is a parameter, with
-- `none` for its DecodeError.
pub mod Outcomes
mod Runs
use bee_rpc_over_grpc_py.Prelude.{
  ℕ, suc, ◌+◌, ◌≡◌, ◌≢◌, refl, sym, ap, ◌∙◌, Bool, true, false, not, ◌&&◌, Option, none, some, List,
  [], ◌∷◌, length, bytes_eq, bytes_eq_sound, bytes_eq_refl, if◌then◌else◌, Bool-cases, Option-cases,
  inl, inr,
}
use bee_rpc_over_grpc_py.Outcome.{Result, ok, err, Result-cases}
use bee_rpc_over_grpc_py.Varint.{Bytes}
use bee_rpc_over_grpc_py.Hex.{hex}
use bee_rpc_over_grpc_py.Wire.{Block}
use bee_rpc_over_grpc_py.Environment.{Environment}
use bee_rpc_over_grpc_py.Pointer.{block_id_from_pointer, get_hash_from_block}
use bee_rpc_over_grpc_py.Store.{Store, find_node, block_exists, read_block}
use bee_rpc_over_grpc_py.Store.Chunks.{collect}
use bee_rpc_over_grpc_py.Creation.{Files, find_file}

-- `os.replace(tmp, directory)`, whether or not the target is there.
unfoldable pub write_file : Files → Bytes → Bytes → Files
write_file [] path content = (path, content) ∷ []
write_file ((p, c) ∷ rest) path content =
    let more = write_file rest path content in
    if bytes_eq p path then (p, content) ∷ rest else (p, c) ∷ more

module _ (env : Environment) (store : Store) (parse : Bytes → Option Block) (works : Bool) where
  -- The hash of the empty type stands in where the pointer names no block.
  abbrev pub or_internal : Block → Option Bytes → Option Bytes
  or_internal block (some (c ∷ cs)) = some (c ∷ cs)
  or_internal block _ = get_hash_from_block env.hash_type block true true

  unfoldable pub block_named : Option (List Bytes) → Option Block → Option Bytes
  unfolding block_id_from_pointer get_hash_from_block
  block_named inherited none = none
  block_named inherited (some block) =
      or_internal block (block_id_from_pointer env.hash_type block inherited true)

  -- A single file is checked once more; of a directory there is nothing to compare with.
  abbrev pub checked_copy : Files → Bytes → Bytes → Bool → Result Bytes → Files × Bool
  checked_copy files directory block_id is_multiblock (err e) = (files, false)
  checked_copy files directory block_id is_multiblock (ok content) =
      if not is_multiblock && not (bytes_eq (hex (env.hash_factory content)) block_id)
      then (files, false)
      else if works
      then (write_file files directory content, true)
      else (files, false)

  abbrev pub copy_named : Files → Bytes → Option Bytes → Files × Bool
  copy_named files directory none = (files, false)
  copy_named files directory (some []) = (files, false)
  copy_named files directory (some (c ∷ cs)) =
      checked_copy files directory (c ∷ cs) (block_exists store (c ∷ cs)).1
        (collect (read_block env store (suc (length store)) (c ∷ cs) true 1))

  unfoldable pub copy_block_if_exists : Files → Bytes → Bytes → Option (List Bytes) → Files × Bool
  unfolding block_named write_file block_exists read_block collect
  copy_block_if_exists files buffer directory inherited =
      copy_named files directory (block_named inherited (parse buffer))
