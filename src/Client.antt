-- ===== src/Client.antt =====
-- `client_grpc` (src/bee_rpc/client.py), without `block_skip` and with it. `method` is the stub of the gRPC library:
-- it takes the request stream and returns the buffers of the response, which does not raise here.
pub mod Call
mod Skipping
mod Runs
use bee_rpc_over_grpc_py.Prelude.{ℕ, Bool, true, false, Option, none, some, List, [], ◌∷◌}
use bee_rpc_over_grpc_py.Outcome.{Result, ok, err}
use bee_rpc_over_grpc_py.Trace.{Trace, raise}
use bee_rpc_over_grpc_py.Varint.{Bytes}
use bee_rpc_over_grpc_py.Wire.{Block, Buffer}
use bee_rpc_over_grpc_py.Environment.{Environment}
use bee_rpc_over_grpc_py.Store.{Store}
use bee_rpc_over_grpc_py.Control.{new_control, reader}
use bee_rpc_over_grpc_py.Sending.{Outgoing, payload}
use bee_rpc_over_grpc_py.Sending.Interleave.{Schedule, Controlled, request_stream}
use bee_rpc_over_grpc_py.Sending.Setup.{Messages, prepare_sending, serialize_to_buffer}
use bee_rpc_over_grpc_py.Receiving.Setup.{
  Indices, no_indices, one_type, by_index, Modes, one_mode, mode_of, other_modes,
}
use bee_rpc_over_grpc_py.Receiving.Loop.{Run, parse_from_buffer}

-- What is not given, or empty, is `Empty` in memory.
abbrev parser_indices : {T : Type 0} → T → Indices T → Indices T
parser_indices empty_type no_indices = one_type empty_type
parser_indices empty_type (one_type t) = one_type t
parser_indices empty_type (by_index []) = one_type empty_type
parser_indices empty_type (by_index (e ∷ es)) = by_index (e ∷ es)

-- `none` is None or an empty list; these and an empty dictionary are false.
abbrev given_mode : Option Modes → Modes
given_mode none = one_mode false
given_mode (some (one_mode b)) = one_mode b
given_mode (some (mode_of [])) = one_mode false
given_mode (some (mode_of (e ∷ es))) = mode_of (e ∷ es)
given_mode (some other_modes) = other_modes

abbrev parser_modes : {T : Type 0} → Indices T → Option Modes → Modes
parser_modes no_indices modes = one_mode true
parser_modes (one_type t) modes = given_mode modes
parser_modes (by_index []) modes = one_mode true
parser_modes (by_index (e ∷ es)) modes = given_mode modes

module _ (env : Environment) (serialize : Block → Bytes) (wbp_fuel : ℕ) {M T : Type 0}
    (decode : T → Bytes → Result M) (is_empty_type : T → Bool) (empty_message : M)
    (same_type : T → T → Bool) (is_message : T → Bool) (bytes_type empty_type : T) where
  unfoldable pub client_grpc :
      (Trace Buffer → List Buffer)
      → Messages T
      → Indices T
      → Option Modes
      → Indices T
      → Store
      → Run env serialize wbp_fuel decode is_empty_type empty_message
  unfolding serialize_to_buffer parse_from_buffer
  client_grpc method input indices_parser modes_parser indices_serializer store =
      parse_from_buffer env serialize wbp_fuel decode is_empty_type empty_message is_message
        bytes_type (parser_indices empty_type indices_parser)
        (parser_modes indices_parser modes_parser)
        (method (
          serialize_to_buffer same_type is_message bytes_type empty_type env store
            indices_serializer input))
        store

  -- `request_stream`; where the arguments are refused it raises, and the control stays as it was.
  abbrev pub sent_request : Schedule → Schedule → Store → Result (List Outgoing) → Controlled
  sent_request schedule rounds store (err e) = (raise e, new_control true)
  sent_request schedule rounds store (ok messages) =
      request_stream env.hash_type (new_control true) schedule rounds (payload env store messages)

  -- With `block_skip`. The calls that the response's thread makes on the control, of the reader and of
  -- the parser, are among those of the schedule; what the reader passes on depends on none of them.
  unfoldable pub client_grpc_block_skip :
      (Trace Buffer → List Buffer)
      → Messages T
      → Indices T
      → Option Modes
      → Indices T
      → Schedule
      → Schedule
      → Store
      → Run env serialize wbp_fuel decode is_empty_type empty_message
  unfolding prepare_sending request_stream payload reader parse_from_buffer
  client_grpc_block_skip method input indices_parser modes_parser indices_serializer schedule rounds
        store =
      let (request, control) =
        sent_request schedule rounds store
          (prepare_sending same_type is_message bytes_type empty_type indices_serializer input) in
      parse_from_buffer env serialize wbp_fuel decode is_empty_type empty_message is_message
        bytes_type (parser_indices empty_type indices_parser)
        (parser_modes indices_parser modes_parser)
        (reader env.hash_type (new_control true) (method request)).1 store
