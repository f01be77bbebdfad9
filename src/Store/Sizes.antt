-- ===== src/Store/Sizes.antt =====
-- How much a block expands to, without reading it: `get_expanded_block_length`, `getsize` and
-- `get_pruned_block_length` (src/bee_rpc/utils.py), `get_block_length` (block_builder.py) and
-- `direct_content_size` (block_splitter.py).
use bee_rpc_over_grpc_py.Prelude.{
  ℕ, zero, suc, ◌+◌, ◌-◌, Option, none, some, List, [], ◌∷◌, length, contains, if◌then◌else◌,
}
use bee_rpc_over_grpc_py.Outcome.{Result, ok, err, plain, not_found, recursion_error, ◌>>=◌}
use bee_rpc_over_grpc_py.Varint.{Bytes}
use bee_rpc_over_grpc_py.Store.{
  Json, num, text, Directory, Node, file, dir, Store, find_node, find_part, first_item,
}

-- `os.path.getsize` of a part.
abbrev pub part_size : Option Bytes → Result ℕ
part_size none = err not_found
part_size (some content) = ok (length content)

-- A referenced block; `rec` measures a block by its id.
abbrev pub reference_size : (Bytes → Result ℕ) → Result Json → Result ℕ
reference_size rec (ok (text id)) = rec id
reference_size rec (ok _) = err plain
reference_size rec (err e) = err e

abbrev pub entry_size : (Bytes → Result ℕ) → Directory → Json → Result ℕ
entry_size rec d (num n) = part_size (find_part d.parts n)
entry_size rec d e = reference_size rec (first_item e)

-- The loop of `getsize` over the entries.
unfoldable pub entries_size : (Bytes → Result ℕ) → Directory → List Json → Result ℕ
unfolding find_part first_item
entries_size rec d [] = ok 0
entries_size rec d (e ∷ es) = do n ← entry_size rec d e; m ← entries_size rec d es; ok (n + m)

abbrev pub directory_size : (Bytes → Result ℕ) → Directory → Option (List Json) → Result ℕ
directory_size rec d none = err not_found
directory_size rec d (some es) = entries_size rec d es

abbrev pub node_size : (Bytes → Result ℕ) → Option Node → Result ℕ
node_size rec none = err not_found
node_size rec (some (file c)) = ok (length c)
node_size rec (some (dir d)) = directory_size rec d d.metadata

module _ (store : Store) where
  -- `_seen` is the stack of the recursion. A block that is a single file, or none, is not put on it.
  unfoldable pub expanded_length : ℕ → List Bytes → Bytes → Result ℕ
  unfolding entries_size find_node
  expanded_length zero seen name = err recursion_error
  expanded_length (suc fuel) seen name =
      let size = node_size (expanded_length fuel (name ∷ seen)) (find_node store name) in
      if contains seen name then err plain else size

  -- Each level of the recursion has another directory of the registry on its stack.
  unfoldable pub get_expanded_block_length : Bytes → Result ℕ
  unfolding expanded_length
  get_expanded_block_length name = expanded_length (suc (length store)) [] name

  abbrev pruned : ℕ → Result ℕ → Result (ℕ × ℕ)
  pruned pointer_length (ok n) = ok (n - pointer_length, pointer_length - n)
  pruned pointer_length (err e) = err e

  -- The difference is an integer: its positive and its negative part.
  unfoldable pub get_pruned_block_length : Bytes → ℕ → Result (ℕ × ℕ)
  unfolding get_expanded_block_length
  get_pruned_block_length name pointer_length =
      pruned pointer_length (get_expanded_block_length name)

  abbrev pub present : Option Node → Result ℕ → Result ℕ
  present none n = err plain
  present (some node) n = n

  -- Of block_builder.py: a block that is missing is refused before it is measured.
  unfoldable pub get_block_length : Bytes → Result ℕ
  unfolding get_expanded_block_length find_node
  get_block_length block_id =
      present (find_node store block_id) (get_expanded_block_length block_id)

  -- `getsize` of a path outside the registry: a missing path measures 0.
  unfoldable pub getsize : Option Node → Result ℕ
  unfolding get_expanded_block_length entries_size
  getsize none = ok 0
  getsize (some (file c)) = ok (length c)
  getsize (some (dir d)) = directory_size get_expanded_block_length d d.metadata

  abbrev own_size : Directory → Json → Result ℕ
  own_size d (num n) = part_size (find_part d.parts n)
  own_size d e = ok 0

  unfoldable pub own_parts_size : Directory → List Json → Result ℕ
  unfolding find_part
  own_parts_size d [] = ok 0
  own_parts_size d (e ∷ es) = do n ← own_size d e; m ← own_parts_size d es; ok (n + m)

  abbrev direct_size : Option Node → Result ℕ
  direct_size none = err not_found
  direct_size (some (file c)) = ok (length c)
  direct_size (some (dir d)) = elim d.metadata [
    | none ↦ err not_found
    | some es ↦ own_parts_size d es
  ]

  -- Of block_splitter.py: the bytes that are in no sub-block.
  unfoldable pub direct_content_size : Bytes → Result ℕ
  unfolding own_parts_size find_node
  direct_content_size block_id = direct_size (find_node store block_id)
