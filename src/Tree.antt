-- ===== src/Tree.antt =====
-- The tree of length prefixes over the blocks of an object: `create_lengths_tree`
-- (src/bee_rpc/utils.py). A dictionary is the list of its entries in the order they were added, and
-- assigning to a key that is there keeps its place.
pub mod Lookup
mod Runs
use bee_rpc_over_grpc_py.Prelude.{ℕ, Option, none, some, List, [], ◌∷◌, ◌==◌, if◌then◌else◌}
use bee_rpc_over_grpc_py.Outcome.{Result, ok, err, index_error, type_error, ◌>>=◌}
use bee_rpc_over_grpc_py.Varint.{Bytes}

-- A position holds a block id or a dictionary of its own.
pub data Tree : Type 0 where
  empty : Tree
  leaf : ℕ → Bytes → Tree → Tree
  branch : ℕ → Tree → Tree → Tree

pub data Entry : Type 0 where
  block : Bytes → Entry
  node : Tree → Entry

unfoldable pub find_entry : Tree → ℕ → Option Entry
find_entry empty p = none
find_entry (leaf k id rest) p = if k == p then some (block id) else find_entry rest p
find_entry (branch k sub rest) p = if k == p then some (node sub) else find_entry rest p

abbrev pub put : ℕ → Entry → Tree → Tree
put k (block id) rest = leaf k id rest
put k (node sub) rest = branch k sub rest

unfoldable pub set_entry : Tree → ℕ → Entry → Tree
set_entry empty p e = put p e empty
set_entry (leaf k id rest) p e =
    let more = set_entry rest p e in if k == p then put k e rest else leaf k id more
set_entry (branch k sub rest) p e =
    let more = set_entry rest p e in if k == p then put k e rest else branch k sub more

-- `if pointer not in current_level: current_level[pointer] = {}`, and the level below. To descend
-- into a string raises a TypeError.
abbrev pub level_below : Option Entry → Result Tree
level_below none = ok empty
level_below (some (node sub)) = ok sub
level_below (some (block id)) = err type_error

-- The two inner loops for one list of pointers.
unfoldable pub add_pointers : List ℕ → Bytes → Tree → Result Tree
unfolding set_entry find_entry
add_pointers [] key tree = err index_error
add_pointers (p ∷ []) key tree = ok (set_entry tree p (block key))
add_pointers (p ∷ q ∷ ps) key tree = do
  below ← level_below (find_entry tree p)
  sub ← add_pointers (q ∷ ps) key below
  ok (set_entry tree p (node sub))

unfoldable pub add_lists : List (List ℕ) → Bytes → Tree → Result Tree
unfolding add_pointers
add_lists [] key tree = ok tree
add_lists (ps ∷ pss) key tree = do tree' ← add_pointers ps key tree; add_lists pss key tree'

unfoldable pub add_containers : List (Bytes × List (List ℕ)) → Tree → Result Tree
unfolding add_lists
add_containers [] tree = ok tree
add_containers ((key, pss) ∷ rest) tree = do
  tree' ← add_lists pss key tree
  add_containers rest tree'

unfoldable pub create_lengths_tree : List (Bytes × List (List ℕ)) → Result Tree
unfolding add_containers
create_lengths_tree pointer_container = add_containers pointer_container empty
