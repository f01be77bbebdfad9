-- ===== src/Splitter/Runs.antt =====
-- Concrete runs, and the theorems at concrete inputs.
use bee_rpc_over_grpc_py.Prelude.{
  contains, ◌≡◌, ◌⊎◌, refl, Bool, false, Option, none, some, [], ◌∷◌, ℕ, bytes_eq, ◌==◌,
}
use bee_rpc_over_grpc_py.Outcome.{Result, ok, err, not_found}
use bee_rpc_over_grpc_py.Varint.{Bytes}
use bee_rpc_over_grpc_py.Hex.{hex, from_hex}
use bee_rpc_over_grpc_py.Wire.{Block}
use bee_rpc_over_grpc_py.Environment.{Environment}
use bee_rpc_over_grpc_py.Store.{file, Store, find_node}
use bee_rpc_over_grpc_py.Splitter.{write_block, Moves, split_block}
use bee_rpc_over_grpc_py.Step.Keeping.{Keeps}
use bee_rpc_over_grpc_py.Splitter.Rewrite.{split_block-Keeps}
use bee_rpc_over_grpc_py.Splitter.Replaced.{KeepsOthers, Moved}

abbrev node : Environment
node = record {
  cache_dir = [];
  block_dir = [];
  block_depth = 1;
  skip_wbp_generation = false;
  hash_factory = λ content. 1 ∷ content;
  hash_type = 1 ∷ [];
  algorithms = [];
  removed = [];
}

-- A message with a field 1 of three bytes; no field of it is a message.
abbrev content : Bytes
content = 10 ∷ 3 ∷ 7 ∷ 8 ∷ 9 ∷ []

abbrev block_id : Bytes
block_id = hex (1 ∷ content)

abbrev store : Store
store = (block_id, file content) ∷ []

abbrev fields : Unit {0} → ℕ → Option ℕ
fields d number = some number

abbrev no_message : ℕ → Option (Unit {0})
no_message f = none

abbrev first_field : ℕ → ℕ → Bool
first_field f size = f == 1

abbrev no_bytes : Block → Bytes
no_bytes b = []

abbrev all_done : Moves
all_done = record { steps_aside = ok tt; takes_place = ok tt; removed = ok tt }

abbrev run : Store × Result Bool
run =
    split_block node fields no_message first_field no_bytes 9 block_id none 2 all_done 9 (some tt)
      store

-- The new form cannot take the place of the old one.
abbrev half_done : Moves
half_done = record { steps_aside = ok tt; takes_place = err not_found; removed = ok tt }

abbrev half : Store × Result Bool
half =
    split_block node fields no_message first_field no_bytes 9 block_id none 2 half_done 9 (some tt)
      store

half-is-lost : find_node half.0 block_id ≡ none
unfolding split_block bytes_eq hex write_block from_hex contains
half-is-lost = refl

split_block-Keeps_example :
    Keeps store half.0
    ⊎ ((half_done.steps_aside ≡ ok tt)
        × KeepsOthers block_id store half.0
        × Moved half_done block_id half.0)
unfolding split_block bytes_eq hex write_block from_hex contains
split_block-Keeps_example =
    split_block-Keeps node fields no_message first_field no_bytes 9 block_id none 2 half_done 9
      (some tt) store (λ h. cc)
