-- ===== src/Sending/Runs.antt =====
-- Concrete runs, and the theorems at concrete inputs.
use bee_rpc_over_grpc_py.Prelude.{
  ◌≡◌, refl, true, false, Option, none, some, List, [], ◌∷◌, bytes_eq, contains,
}
use bee_rpc_over_grpc_py.Outcome.{Result, ok, key_error}
use bee_rpc_over_grpc_py.Trace.{Trace, stop, raise, next, drain}
use bee_rpc_over_grpc_py.Varint.{Bytes}
use bee_rpc_over_grpc_py.Wire.{Block, Buffer, empty_buffer}
use bee_rpc_over_grpc_py.Environment.{Environment}
use bee_rpc_over_grpc_py.Parser.{Effects}
use bee_rpc_over_grpc_py.Receiving.{parse_message}
use bee_rpc_over_grpc_py.Hex.{hex, from_hex}
use bee_rpc_over_grpc_py.Pointer.{pointer_of_bytes, get_hash_from_block}
use bee_rpc_over_grpc_py.Sending.{separator_buffer, value, payload}
use bee_rpc_over_grpc_py.Control.{new_control, request_skip}
use bee_rpc_over_grpc_py.Control.Queue.{Call, request, perform}
use bee_rpc_over_grpc_py.Builder.{
  Fields, end, message, bytes, text_field, primitive, Found, search_on_message,
}
use bee_rpc_over_grpc_py.Sending.Interleave.{Schedule, request_stream}
use bee_rpc_over_grpc_py.Sending.Contains.{contain_blocks, search_on_message-contain_blocks}

abbrev node : Environment
node = record {
  cache_dir = [];
  block_dir = [];
  block_depth = 1;
  skip_wbp_generation = false;
  hash_factory = λ content. 1 ∷ content;
  hash_type = 1 ∷ [];
  algorithms = [];
  removed = [];
}

unknown_type : payload node [] (value none (7 ∷ []) false ∷ []) ≡ raise key_error
unfolding payload
unknown_type = refl

abbrev effects : Effects
effects = record { signals = 0; control = none }

abbrev later : List Buffer
later = record empty_buffer { chunk = some (9 ∷ []) } ∷ []

-- The target type takes the bytes as they are.
abbrev as_bytes : Bytes → Result Bytes
as_bytes bs = ok bs

abbrev chunk : Bytes → Buffer
chunk c = record empty_buffer { chunk = some c }

abbrev marker : Buffer
marker = record empty_buffer { block = some (pointer_of_bytes (1 ∷ []) (4 ∷ []) false) }

-- The part of a message behind its first block is left in the stream.
cut_behind_block :
    parse_message node [] as_bytes 9
      (chunk (1 ∷ []) ∷ marker ∷ chunk (2 ∷ []) ∷ marker ∷ chunk (3 ∷ []) ∷ separator_buffer ∷ [])
      effects
    ≡ ok (some (1 ∷ 2 ∷ []), (chunk (3 ∷ []) ∷ separator_buffer ∷ [], effects))
unfolding parse_message bytes_eq hex pointer_of_bytes get_hash_from_block contains
cut_behind_block = refl

-- Before the first buffer the parser's thread asks for a block, in a round of the open direction for
-- another one.
abbrev schedule : Schedule
schedule = (request (hex (4 ∷ [])) ∷ []) ∷ []

abbrev rounds : Schedule
rounds = [] ∷ (request (hex (5 ∷ [])) ∷ []) ∷ []

abbrev payload_trace : Trace Buffer
payload_trace = next (chunk (7 ∷ [])) (next separator_buffer stop)

abbrev asked_before : List Call
asked_before = request (hex (6 ∷ [])) ∷ []

-- Two requests and the payload between them.
interleaved :
    (drain (request_stream (1 ∷ []) (new_control true) schedule rounds payload_trace).0)
    ≡ ok (
        record empty_buffer {
          skip = some (pointer_of_bytes (1 ∷ []) (4 ∷ []) false);
          chunk = some [];
        }
        ∷ chunk (7 ∷ [])
        ∷ separator_buffer
        ∷ record empty_buffer {
          skip = some (pointer_of_bytes (1 ∷ []) (5 ∷ []) false);
          chunk = some [];
        }
        ∷ [])
unfolding request_stream request_skip bytes_eq hex contains perform from_hex
interleaved = refl

-- Every byte string that is empty parses as a pointer here.
abbrev parse_empty : Bytes → Option Block
parse_empty [] = some (pointer_of_bytes [] [] false)
parse_empty (b ∷ bs) = none

abbrev no_pointer : Fields
no_pointer = message 3 (bytes (1 ∷ []) end) (text_field 2 (primitive 2 end))

abbrev nothing_found : Found
nothing_found = record { container = []; pointer_lengths = [] }

search_on_message-contain_blocks_example :
    search_on_message node [] parse_empty (λ b. 0) [] none [] 0 no_pointer nothing_found
    ≡ ok nothing_found
unfolding contain_blocks
search_on_message-contain_blocks_example =
    search_on_message-contain_blocks parse_empty node [] (λ b. 0) [] none no_pointer [] 0
      nothing_found refl
