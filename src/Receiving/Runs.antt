-- ===== src/Receiving/Runs.antt =====
-- Concrete runs, and the theorems at concrete inputs.
use bee_rpc_over_grpc_py.Prelude.{
  ◌≡◌, refl, true, false, none, some, [], ◌∷◌, List, bytes_eq, contains,
}
use bee_rpc_over_grpc_py.Outcome.{Result}
use bee_rpc_over_grpc_py.Varint.{Bytes}
use bee_rpc_over_grpc_py.Hex.{hex, hex_injective}
use bee_rpc_over_grpc_py.Wire.{Block, Buffer, empty_buffer}
use bee_rpc_over_grpc_py.Environment.{Environment}
use bee_rpc_over_grpc_py.Pointer.{pointer_of_bytes, get_hash_from_block}
use bee_rpc_over_grpc_py.Store.{Node, dir, Store, find_node, num, text, array, cons, nil}
use bee_rpc_over_grpc_py.Step.Keeping.{Keeps}
use bee_rpc_over_grpc_py.Saving.Complete.{IsComplete}
use bee_rpc_over_grpc_py.Receiving.Files.{save_to_dir}
use bee_rpc_over_grpc_py.Receiving.Kept.{Expands, save_to_dir-Expands}

abbrev node : Environment
node = record {
  cache_dir = [];
  block_dir = [];
  block_depth = 1;
  skip_wbp_generation = true;
  hash_factory = λ content. 1 ∷ content;
  hash_type = 1 ∷ [];
  algorithms = [];
  removed = [];
}

no_collisions : (x y : Bytes) → hex (1 ∷ x) ≡ hex (1 ∷ y) → x ≡ y
no_collisions x y h = let same = hex_injective (1 ∷ x) (1 ∷ y) h in cc

abbrev no_bytes : Block → Bytes
no_bytes b = []

abbrev chunk : Bytes → Buffer
chunk c = record empty_buffer { chunk = some c }

abbrev marker : Buffer
marker = record empty_buffer { block = some (pointer_of_bytes (1 ∷ []) (1 ∷ 2 ∷ []) false) }

-- A message with the block 2 in it, and a buffer that follows it.
abbrev stream : List Buffer
stream =
    record empty_buffer { head = some 1 }
    ∷ chunk (1 ∷ [])
    ∷ marker
    ∷ chunk (2 ∷ [])
    ∷ marker
    ∷ chunk (3 ∷ [])
    ∷ record empty_buffer { separator = some true }
    ∷ chunk (9 ∷ [])
    ∷ []

empty-IsComplete : IsComplete node []
unfolding find_node
empty-IsComplete id n h = cc

abbrev run : Store × Result (Node × List Buffer)
run = save_to_dir node no_bytes 9 stream []

abbrev kept : Node
kept = dir (record {
  metadata =
      some (num 1 ∷ array (cons (text (hex (1 ∷ 2 ∷ []))) (cons (array nil) nil)) ∷ num 2 ∷ []);
  parts = (1, 1 ∷ []) ∷ (2, 3 ∷ []) ∷ [];
  wbp = none;
})

save_to_dir-Expands_example :
    IsComplete node run.0 × Keeps [] run.0 × ((bs : Bytes) × Expands node run.0 kept bs)
unfolding save_to_dir bytes_eq hex pointer_of_bytes get_hash_from_block contains
save_to_dir-Expands_example =
    save_to_dir-Expands node no_bytes 9 no_collisions stream (chunk (9 ∷ []) ∷ []) [] run.0 kept
      empty-IsComplete refl
