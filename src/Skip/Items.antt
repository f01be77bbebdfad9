-- ===== src/Skip/Items.antt =====
-- A stream as a tree of blocks in blocks, and the tree without the blocks that are wanted.
use bee_rpc_over_grpc_py.Prelude.{
  ◌≡◌, true, false, Option, none, some, List, [], ◌∷◌, ◌++◌, if◌then◌else◌,
}
use bee_rpc_over_grpc_py.Varint.{Bytes}
use bee_rpc_over_grpc_py.Wire.{Block, Buffer}
use bee_rpc_over_grpc_py.Pointer.{get_hash_from_block}
use bee_rpc_over_grpc_py.Control.{StreamControl, should_skip}
use bee_rpc_over_grpc_py.Skip.{Key, key_eq}

-- A stream in which each block stands with its marker, its body and what follows it.
pub data Items : Type 0 where
  done : Items
  piece : Buffer → Items → Items
  nested : Buffer → Items → Items → Items

unfoldable pub flatten : Items → List Buffer
flatten done = []
flatten (piece b rest) = b ∷ flatten rest
flatten (nested m body rest) = m ∷ (flatten body ++ (m ∷ flatten rest))

abbrev pub key_of : Bytes → Option Block → Key
key_of hash_type none = none
key_of hash_type (some block) = get_hash_from_block hash_type block false true

-- The wanted blocks lose their body, and keep both markers.
unfoldable pub prune : Bytes → StreamControl → Items → Items
prune hash_type control done = done
prune hash_type control (piece b rest) = piece b (prune hash_type control rest)
prune hash_type control (nested m body rest) =
    let kept = prune hash_type control body in
    nested m (if should_skip control (key_of hash_type m.block) then done else kept)
      (prune hash_type control rest)

abbrev pub Differs : Option Key → Key → Type 0
Differs none k = Unit
Differs (some outer) k = key_eq outer k ≡ false

-- Pieces carry no marker, markers do, and no block stands directly in a block of its own id.
abbrev pub IsStream : Bytes → Option Key → Items → Type 0
IsStream hash_type outer done = Unit
IsStream hash_type outer (piece b rest) = (b.block ≡ none) × IsStream hash_type outer rest
IsStream hash_type outer (nested m body rest) =
    ((block : Block) × (m.block ≡ some block))
    × Differs outer (key_of hash_type m.block)
    × IsStream hash_type (some (key_of hash_type m.block)) body
    × IsStream hash_type outer rest

abbrev pub at_once : StreamControl → List Buffer → List (Buffer × StreamControl)
at_once control [] = []
at_once control (b ∷ bs) = (b, control) ∷ at_once control bs
