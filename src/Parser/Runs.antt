-- ===== src/Parser/Runs.antt =====
-- Concrete runs, and the theorems at concrete inputs.
use bee_rpc_over_grpc_py.Prelude.{
  ◌≡◌, refl, Bool, false, List, [], ◌∷◌, none, some, contains, bytes_eq, arith,
}
use bee_rpc_over_grpc_py.Outcome.{err, plain}
use bee_rpc_over_grpc_py.Trace.{stop, next}
use bee_rpc_over_grpc_py.Varint.{Bytes}
use bee_rpc_over_grpc_py.Hex.{hex}
use bee_rpc_over_grpc_py.Wire.{Buffer, empty_buffer}
use bee_rpc_over_grpc_py.Pointer.{get_hash_from_block}
use bee_rpc_over_grpc_py.Skip.Items.{Items, done, piece, nested, flatten}
use bee_rpc_over_grpc_py.Parser.{Effects, parser_iterator, stop_generator}
use bee_rpc_over_grpc_py.Parser.Nested.{Closes, parser_iterator-block}

abbrev sha : Bytes
sha = 1 ∷ []

abbrev marker_of : Bytes → Buffer
marker_of id = record empty_buffer {
  block =
      some (record {
        hashes = record { type = sha; value = id } ∷ [];
        previous_lengths_position = [];
      });
}

abbrev chunk : Bytes → Buffer
chunk bytes = record empty_buffer { chunk = some bytes }

abbrev fresh : Effects
fresh = record { signals = 0; control = none }

abbrev nowhere : Bytes → Bool
nowhere id = false

abbrev body : Items
body = piece (chunk (2 ∷ [])) (nested (marker_of (0xb0 ∷ [])) (piece (chunk (3 ∷ [])) done) done)

abbrev rest : List Buffer
rest = chunk (4 ∷ []) ∷ []

-- A marker of an outer block that is open further out.
intersection :
    (parser_iterator sha nowhere 9 false []
      (marker_of (0xa0 ∷ []) ∷ marker_of (0xb0 ∷ []) ∷ marker_of (0xa0 ∷ []) ∷ [])
      fresh).ending
    ≡ err plain
unfolding parser_iterator contains bytes_eq get_hash_from_block hex
intersection = refl

stops :
    stop_generator sha
      (hex (0xb0 ∷ []))
      (next (chunk (2 ∷ [])) (next (marker_of (0xb0 ∷ [])) (next (chunk (4 ∷ [])) stop)))
    ≡ (next (chunk (2 ∷ [])) (next empty_buffer stop), (next (chunk (4 ∷ [])) stop, false))
unfolding stop_generator bytes_eq get_hash_from_block hex
stops = refl

parser_iterator-block_example :
    Closes sha nowhere (chunk (1 ∷ []) ∷ marker_of (0xa0 ∷ []) ∷ flatten body) [] rest (
      parser_iterator sha nowhere 9 false []
        (chunk (1 ∷ [])
          ∷ marker_of (0xa0 ∷ [])
          ∷ chunk (2 ∷ [])
          ∷ marker_of (0xb0 ∷ [])
          ∷ chunk (3 ∷ [])
          ∷ marker_of (0xb0 ∷ [])
          ∷ marker_of (0xa0 ∷ [])
          ∷ rest)
        fresh)
unfolding flatten get_hash_from_block hex contains bytes_eq
parser_iterator-block_example =
    parser_iterator-block sha nowhere (chunk (1 ∷ []) ∷ []) body 9 (hex (0xa0 ∷ []))
      (marker_of (0xa0 ∷ [])) (marker_of (0xa0 ∷ [])) rest fresh ((refl, refl, refl), tt)
      (_, refl, refl, refl) refl refl
      (
        (refl, refl, refl),
        (hex (0xb0 ∷ []), (_, refl, refl, refl), refl, omega arith, ((refl, refl, refl), tt), tt),
      )
      (_, refl, refl, refl) (omega arith)
