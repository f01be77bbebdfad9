-- ===== src/Creation.antt =====
-- How a file becomes a block of the registry: `get_file_hash` (src/bee_rpc/utils.py),
-- `move_to_block_dir` and `copy_to_block_dir` (client.py), `create_block`, `is_block`, `get_hash` and
-- `assert_container_covers_blocks` (block_builder.py). The files outside the registry are an
-- association list from paths to contents. `works` says whether the system calls of a move or a copy
-- succeed. A copy goes through a temporary file that a failure removes, so only its outcome stands
-- here.
pub mod ReadBack
mod Runs
use bee_rpc_over_grpc_py.Prelude.{
  ℕ, zero, suc, Bool, true, false, not, ◌&&◌, ◌||◌, Option, none, some, List, [], ◌∷◌, ◌++◌, length,
  take, drop, bytes_eq, contains, if◌then◌else◌,
}
use bee_rpc_over_grpc_py.Outcome.{Error, Result, ok, err, plain, not_found, value_error, ◌>>=◌}
use bee_rpc_over_grpc_py.Varint.{Bytes}
use bee_rpc_over_grpc_py.Hex.{hex, from_hex}
use bee_rpc_over_grpc_py.Wire.{Block}
use bee_rpc_over_grpc_py.Environment.{Environment}
use bee_rpc_over_grpc_py.Pointer.{pointer_of_bytes, block_id_from_pointer}
use bee_rpc_over_grpc_py.Store.{Node, file, Store, find_node, block_exists}

abbrev pub Files : Type 0
Files = List (Bytes × Bytes)

unfoldable pub find_file : Files → Bytes → Option Bytes
find_file [] path = none
find_file ((p, content) ∷ rest) path = if bytes_eq p path then some content else find_file rest path

unfoldable pub remove_file : Files → Bytes → Files
remove_file [] path = []
remove_file ((p, content) ∷ rest) path =
    let more = remove_file rest path in if bytes_eq p path then more else (p, content) ∷ more

pub record Disk : Type 0 where
  pub files : Files
  pub store : Store

abbrev pub hash_chunk : ℕ
hash_chunk = 1024

-- `hash.update` on one chunk after the other: what the hash object was fed so far is the first
-- list. Each round takes a byte at least.
unfoldable pub update_loop : ℕ → Bytes → Bytes → Bytes
update_loop fuel fed [] = fed
update_loop zero fed (b ∷ bs) = fed
update_loop (suc fuel) fed (b ∷ bs) =
    update_loop fuel (fed ++ take hash_chunk (b ∷ bs)) (drop hash_chunk (b ∷ bs))

module _ (env : Environment) where
  abbrev pub hash_of : Option Bytes → Result Bytes
  hash_of none = err not_found
  hash_of (some content) = ok (hex (env.hash_factory (update_loop (length content) [] content)))

  unfoldable pub get_file_hash : Files → Bytes → Result Bytes
  unfolding find_file update_loop
  get_file_hash files path = hash_of (find_file files path)

  -- `not block_exists(…) and os.path.isfile(…)`, and what the system calls make of it.
  abbrev pub transfer :
      Disk → Bool → Bool × Bool → Option Bytes → (Bytes → Disk) → Disk × Result Bool
  transfer disk works (true, is_dir) content after = (disk, ok false)
  transfer disk works (false, is_dir) none after = (disk, ok false)
  transfer disk works (false, is_dir) (some content) after =
      if works then (after content, ok true) else (disk, err plain)

  unfoldable pub move_to_block_dir : Disk → Bool → Bytes → Bytes → Disk × Result Bool
  unfolding block_exists find_file remove_file
  move_to_block_dir disk works file_hash path =
      transfer disk works (block_exists disk.store file_hash) (find_file disk.files path)
        (λ content. record {
          files = remove_file disk.files path;
          store = (file_hash, file content) ∷ disk.store;
        })

  unfoldable pub copy_to_block_dir : Disk → Bool → Bytes → Bytes → Disk × Result Bool
  unfolding block_exists find_file
  copy_to_block_dir disk works file_hash path =
      transfer disk works (block_exists disk.store file_hash) (find_file disk.files path)
        (λ content. record disk { store = (file_hash, file content) ∷ disk.store })

  -- `copy and not copy_to_block_dir(…) or not copy and not move_to_block_dir(…)` where the block is
  -- missing; nothing where it is there.
  abbrev pub transferred : Disk × Result Bool → Disk × Result (Unit {0})
  transferred (disk, ok true) = (disk, ok _)
  transferred (disk, ok false) = (disk, err plain)
  transferred (disk, err e) = (disk, err e)

  abbrev pub ensure_block :
      Disk → Bool → Bool → Bytes → Bytes → Bool × Bool → Disk × Result (Unit {0})
  ensure_block disk works copy file_hash path (true, is_dir) = (disk, ok _)
  ensure_block disk works copy file_hash path (false, is_dir) = transferred (
      if copy
      then copy_to_block_dir disk works file_hash path
      else move_to_block_dir disk works file_hash path)

  abbrev pub pointed : Option Bytes → Result (Bytes × Block)
  pointed none = err value_error
  pointed (some value) = ok (value, pointer_of_bytes env.hash_type value false)

  abbrev pub create_from_hash :
      Disk → Bool → Bool → Bytes → Result Bytes → Disk × Result (Bytes × Block)
  create_from_hash disk works copy path (err e) = (disk, err e)
  create_from_hash disk works copy path (ok file_hash) =
      let (disk', done) =
        ensure_block disk works copy file_hash path (block_exists disk.store file_hash) in
      (disk', (done >>= λ _. pointed (from_hex file_hash)))

  unfoldable pub create_block : Disk → Bool → Bytes → Bool → Disk × Result (Bytes × Block)
  unfolding get_file_hash move_to_block_dir copy_to_block_dir from_hex pointer_of_bytes
  create_block disk works path copy =
      create_from_hash disk works copy path (get_file_hash disk.files path)

  abbrev or_plain : Option Bytes → Result Bytes
  or_plain none = err plain
  or_plain (some id) = ok id

  unfoldable pub get_hash : Block → Option (List Bytes) → Result Bytes
  unfolding block_id_from_pointer
  get_hash block inherited = or_plain (block_id_from_pointer env.hash_type block inherited true)

  abbrev is_one_of : List Bytes → Option Bytes → Bool
  is_one_of blocks none = false
  is_one_of blocks (some id) = contains blocks id

  -- `ParseFromString` is the protobuf library's; `none` is its DecodeError.
  unfoldable pub is_block : (Bytes → Option Block) → Bytes → List Bytes → Option (List Bytes) → Bool
  unfolding block_id_from_pointer contains
  is_block parse bytes_obj blocks inherited = elim (parse bytes_obj) [
    | none ↦ false
    | some block ↦ is_one_of blocks (block_id_from_pointer env.hash_type block inherited false)
  ]

-- The keys of the container against the hashes of the blocks.
unfoldable pub assert_container_covers_blocks : List Bytes → List Bytes → Result (Unit {0})
unfolding contains hex
assert_container_covers_blocks detected [] = ok _
assert_container_covers_blocks detected (block ∷ blocks) =
    let rest = assert_container_covers_blocks detected blocks in
    if contains detected (hex block) then rest else err plain
