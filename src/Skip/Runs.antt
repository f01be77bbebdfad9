-- ===== src/Skip/Runs.antt =====
-- Concrete runs, and the theorems at concrete inputs.
use bee_rpc_over_grpc_py.Prelude.{◌≡◌, refl, true, [], ◌∷◌, some, contains, bytes_eq}
use bee_rpc_over_grpc_py.Varint.{Bytes}
use bee_rpc_over_grpc_py.Hex.{hex}
use bee_rpc_over_grpc_py.Wire.{Buffer, empty_buffer}
use bee_rpc_over_grpc_py.Pointer.{get_hash_from_block}
use bee_rpc_over_grpc_py.Control.{StreamControl, new_control, should_skip}
use bee_rpc_over_grpc_py.Skip.{buffers, skip_requested_blocks}
use bee_rpc_over_grpc_py.Skip.Receiver.{nest, receive}
use bee_rpc_over_grpc_py.Skip.Nesting.{nest-skip_requested_blocks}
use bee_rpc_over_grpc_py.Skip.Content.{outside, outside-skip_requested_blocks}
use bee_rpc_over_grpc_py.Skip.Items.{Items, done, piece, nested, flatten, prune, at_once}
use bee_rpc_over_grpc_py.Skip.Tree.{skip_requested_blocks-prune}

abbrev sha : Bytes
sha = 1 ∷ []

abbrev marker_of : Bytes → Buffer
marker_of id = record empty_buffer {
  block =
      some (record {
        hashes = record { type = sha; value = id } ∷ [];
        previous_lengths_position = [];
      });
}

abbrev chunk : Bytes → Buffer
chunk bytes = record empty_buffer { chunk = some bytes }

-- Block a, which has block b in it, between two chunks.
abbrev items : Items
items = piece (chunk (1 ∷ [])) (
    nested (marker_of (0xa0 ∷ []))
      (piece (chunk (2 ∷ [])) (nested (marker_of (0xb0 ∷ [])) (piece (chunk (3 ∷ [])) done) done))
      (piece (chunk (4 ∷ [])) done))

-- The peer wants the inner block skipped.
abbrev wants_b : StreamControl
wants_b = record (new_control true) { skip = hex (0xb0 ∷ []) ∷ [] }

abbrev pruned_items : Items
pruned_items = piece (chunk (1 ∷ [])) (
    nested (marker_of (0xa0 ∷ []))
      (piece (chunk (2 ∷ [])) (nested (marker_of (0xb0 ∷ [])) done done))
      (piece (chunk (4 ∷ [])) done))

skip_requested_blocks-prune_example :
    skip_requested_blocks sha (some wants_b) (at_once wants_b (flatten items))
    ≡ flatten pruned_items
unfolding prune should_skip get_hash_from_block hex contains bytes_eq
skip_requested_blocks-prune_example =
    skip_requested_blocks-prune sha wants_b items refl
      (refl, ((_, refl), tt, (refl, ((_, refl), refl, (refl, tt), tt)), (refl, tt)))

nest-skip_requested_blocks_example :
    nest sha [] (skip_requested_blocks sha (some wants_b) (at_once wants_b (flatten items)))
    ≡ some []
unfolding nest receive get_hash_from_block bytes_eq hex flatten
nest-skip_requested_blocks_example =
    nest-skip_requested_blocks sha (some wants_b) (at_once wants_b (flatten items)) refl

outside-skip_requested_blocks_example :
    outside sha [] (skip_requested_blocks sha (some wants_b) (at_once wants_b (flatten items)))
    ≡ outside sha [] (buffers (at_once wants_b (flatten items)))
unfolding nest receive get_hash_from_block bytes_eq hex flatten
outside-skip_requested_blocks_example =
    outside-skip_requested_blocks sha (some wants_b) (at_once wants_b (flatten items)) [] refl
