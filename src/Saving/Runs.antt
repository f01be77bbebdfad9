-- ===== src/Saving/Runs.antt =====
-- Concrete runs, and the theorems at concrete inputs.
use bee_rpc_over_grpc_py.Prelude.{
  ◌≡◌, refl, true, false, some, none, [], ◌∷◌, List, bytes_eq, contains,
}
use bee_rpc_over_grpc_py.Outcome.{Result, err, block_id_mismatch}
use bee_rpc_over_grpc_py.Trace.{Trace, stop, next}
use bee_rpc_over_grpc_py.Varint.{Bytes}
use bee_rpc_over_grpc_py.Hex.{hex, hex_injective}
use bee_rpc_over_grpc_py.Wire.{Block, Buffer, empty_buffer}
use bee_rpc_over_grpc_py.Environment.{Environment}
use bee_rpc_over_grpc_py.Pointer.{pointer_of_bytes, get_hash_from_block, block_id_from_pointer}
use bee_rpc_over_grpc_py.Store.{Store, find_node}
use bee_rpc_over_grpc_py.Step.Keeping.{Keeps}
use bee_rpc_over_grpc_py.Saving.{Progress, feed, note_block, save_chunks_to_block}
use bee_rpc_over_grpc_py.Saving.Complete.{Reads, IsComplete}
use bee_rpc_over_grpc_py.Saving.Blocks.{save_chunks_to_block-IsComplete, save_chunks_to_block-Reads}

abbrev node : Environment
node = record {
  cache_dir = [];
  block_dir = [];
  block_depth = 1;
  skip_wbp_generation = true;
  hash_factory = λ content. 1 ∷ content;
  hash_type = 1 ∷ [];
  algorithms = [];
  removed = [];
}

no_collisions : (x y : Bytes) → hex (1 ∷ x) ≡ hex (1 ∷ y) → x ≡ y
no_collisions x y h = let same = hex_injective (1 ∷ x) (1 ∷ y) h in cc

abbrev no_bytes : Block → Bytes
no_bytes b = []

abbrev chunk : Bytes → Buffer
chunk c = record empty_buffer { chunk = some c }

-- The pointer to the block with this content.
abbrev pointer : Bytes → Block
pointer content = pointer_of_bytes (1 ∷ []) (1 ∷ content) false

abbrev marker_of : Bytes → Buffer
marker_of content = record empty_buffer { block = some (pointer content) }

-- Behind the marker that opens the block 1, 2, 3: in it is the block 2, and a chunk comes after it.
abbrev stream : List Buffer
stream =
    chunk (1 ∷ [])
    ∷ marker_of (2 ∷ [])
    ∷ chunk (2 ∷ [])
    ∷ marker_of (2 ∷ [])
    ∷ chunk (3 ∷ [])
    ∷ marker_of (1 ∷ 2 ∷ 3 ∷ [])
    ∷ chunk (9 ∷ [])
    ∷ []

abbrev trace_of : List Buffer → Trace Buffer
trace_of [] = stop
trace_of (b ∷ bs) = next b (trace_of bs)

abbrev before : Progress
before = record {
  input = trace_of stream;
  exhausted = false;
  hashers = (7 ∷ []) ∷ [];
  entries = [];
}

abbrev run : Store × Result Progress
run =
    save_chunks_to_block node no_bytes 9 3 (marker_of (1 ∷ 2 ∷ 3 ∷ [])) (pointer (1 ∷ 2 ∷ 3 ∷ []))
      before []

empty-IsComplete : IsComplete node []
unfolding find_node
empty-IsComplete id n h = cc

-- The same stream under the id of another block.
torn :
    (save_chunks_to_block node no_bytes 9 3 (marker_of (5 ∷ [])) (pointer (5 ∷ [])) before []).1
    ≡ err block_id_mismatch
unfolding save_chunks_to_block bytes_eq hex pointer_of_bytes get_hash_from_block contains
torn = refl

save_chunks_to_block-IsComplete_example : IsComplete node run.0 × Keeps [] run.0
save_chunks_to_block-IsComplete_example =
    save_chunks_to_block-IsComplete node no_bytes 9 no_collisions 3 (marker_of (1 ∷ 2 ∷ 3 ∷ []))
      (pointer (1 ∷ 2 ∷ 3 ∷ [])) before [] empty-IsComplete

abbrev after : Progress
after = record {
  input = next (chunk (9 ∷ [])) stop;
  exhausted = false;
  hashers = (7 ∷ 1 ∷ 2 ∷ 3 ∷ []) ∷ [];
  entries = [];
}

save_chunks_to_block-Reads_example :
    (id : Bytes) × (payload : Bytes) × (block_id_from_pointer
        (1 ∷ [])
        (pointer (1 ∷ 2 ∷ 3 ∷ []))
        none
        true
      ≡ some id)
    × Reads node run.0 id payload
    × (hex (1 ∷ payload) ≡ id)
    × (after.hashers ≡ feed payload ((7 ∷ []) ∷ []))
    × (after.entries ≡ note_block [] id (pointer (1 ∷ 2 ∷ 3 ∷ [])))
unfolding save_chunks_to_block bytes_eq hex pointer_of_bytes get_hash_from_block contains
save_chunks_to_block-Reads_example =
    save_chunks_to_block-Reads node no_bytes 9 no_collisions 3 (marker_of (1 ∷ 2 ∷ 3 ∷ []))
      (pointer (1 ∷ 2 ∷ 3 ∷ [])) before after [] run.0 empty-IsComplete refl
