-- ===== src/Exchange/Runs.antt =====
-- Concrete runs, and the theorems at concrete inputs.
use bee_rpc_over_grpc_py.Prelude.{
  ◌≡◌, refl, Bool, true, false, none, some, ℕ, List, [], ◌∷◌, ◌==◌, All,
}
use bee_rpc_over_grpc_py.Outcome.{Result, ok}
use bee_rpc_over_grpc_py.Trace.{drain}
use bee_rpc_over_grpc_py.Varint.{Bytes}
use bee_rpc_over_grpc_py.Wire.{Block, Buffer}
use bee_rpc_over_grpc_py.Environment.{Environment}
use bee_rpc_over_grpc_py.Store.{file}
use bee_rpc_over_grpc_py.Driver.{Dict, get_key}
use bee_rpc_over_grpc_py.Sending.{payload}
use bee_rpc_over_grpc_py.Sending.Setup.{iterator, serialize_to_buffer}
use bee_rpc_over_grpc_py.Hex.{hex}
use bee_rpc_over_grpc_py.Control.{new_control, reader}
use bee_rpc_over_grpc_py.Control.Queue.{request}
use bee_rpc_over_grpc_py.Sending.Interleave.{Schedule, request_stream}
use bee_rpc_over_grpc_py.Exchange.Controlled.{parse_from_buffer-request_stream}
use bee_rpc_over_grpc_py.Exchange.Defaults.{
  Sample, items, all_got, parse_from_buffer-serialize_to_buffer,
}
use bee_rpc_over_grpc_py.Receiving.Setup.{
  Indices, no_indices, one_type, by_index, Modes, one_mode, mode_of, prepare,
}
use bee_rpc_over_grpc_py.Receiving.Loop.{in_memory, on_disk, parse_from_buffer}
use bee_rpc_over_grpc_py.Exchange.{
  Letter, plain_file, message_with, outgoing, received_of, IsReceived, parse_from_buffer-payload,
}

abbrev node : Environment
node = record {
  cache_dir = [];
  block_dir = [];
  block_depth = 1;
  skip_wbp_generation = false;
  hash_factory = λ content. 1 ∷ content;
  hash_type = 1 ∷ [];
  algorithms = [];
  removed = [];
}

-- The types are bytes, 0, and texts, 1; both take their bytes as they are.
abbrev decode : ℕ → Bytes → Result Bytes
decode t bytes = ok bytes

abbrev is_text : ℕ → Bool
is_text t = t == 1

abbrev is_empty_type : ℕ → Bool
is_empty_type t = false

abbrev no_bytes : Block → Bytes
no_bytes b = []

-- A file that is kept on disk, an empty text, a text, and bytes.
abbrev letters : List (Letter Bytes ℕ)
letters =
    record {
      form = plain_file;
      type = 2;
      index = 2;
      bytes = 5 ∷ [];
      received = some (on_disk (file (5 ∷ [])) 2);
    }
    ∷ record { form = message_with false; type = 1; index = 1; bytes = []; received = none }
    ∷ record {
      form = message_with true;
      type = 1;
      index = 1;
      bytes = 7 ∷ 8 ∷ [];
      received = some (in_memory (7 ∷ 8 ∷ []));
    }
    ∷ record {
      form = message_with false;
      type = 0;
      index = 0;
      bytes = 9 ∷ [];
      received = some (in_memory (9 ∷ []));
    }
    ∷ []

abbrev given : Indices ℕ
given = by_index ((1, 1) ∷ (2, 2) ∷ [])

abbrev given_modes : Modes
given_modes = mode_of ((1, true) ∷ (2, false) ∷ [])

abbrev indices : Dict ℕ
indices = (1, 1) ∷ (2, 2) ∷ (0, 0) ∷ []

abbrev modes : Dict Bool
modes = (1, true) ∷ (2, false) ∷ (0, true) ∷ []

prepared : prepare is_text 0 given given_modes ≡ ok (indices, modes)
unfolding prepare
prepared = refl

letters-All-IsReceived : All (IsReceived decode is_empty_type indices modes) letters
unfolding get_key
letters-All-IsReceived = (
  (refl, (refl, refl, refl)),
  (
    (refl, (refl, refl, (1, refl, refl))),
    ((refl, (refl, (λ h. cc), refl)), ((refl, (refl, (λ h. cc), refl)), tt)),
  ),
)

parse_from_buffer-payload_example :
    (out : List Buffer) × (drain (payload node [] (outgoing letters)) ≡ ok out)
    × (parse_from_buffer node no_bytes 1 decode is_empty_type [] is_text 0 given given_modes out []
        ≡ (received_of letters, []))
parse_from_buffer-payload_example =
    parse_from_buffer-payload node no_bytes 1 decode is_empty_type [] [] node [] is_text 0 given
      given_modes indices modes letters prepared letters-All-IsReceived

abbrev same : ℕ → ℕ → Bool
same t u = t == u

abbrev first_sample : Sample Bytes
first_sample = record { message = 3 ∷ []; bytes = 3 ∷ []; contains_blocks = false }

abbrev samples : List (Sample Bytes)
samples = record { message = 7 ∷ 8 ∷ []; bytes = 7 ∷ 8 ∷ []; contains_blocks = true } ∷ []

parse_from_buffer-serialize_to_buffer_example :
    (out : List Buffer) × (drain (
        serialize_to_buffer same is_text 0 3 node [] no_indices
          (iterator (items 1 (first_sample ∷ samples))))
      ≡ ok out)
    × (parse_from_buffer node no_bytes 1 decode is_empty_type [] is_text 0
          (one_type 1)
          (one_mode false)
          out
          []
        ≡ (all_got 1 false (first_sample ∷ samples), []))
parse_from_buffer-serialize_to_buffer_example =
    parse_from_buffer-serialize_to_buffer 1 same is_text 0 3 refl refl node node [] [] no_bytes 1
      decode is_empty_type [] false first_sample samples
      (((λ h. cc), refl), (((λ h. cc), refl), tt))

-- Another thread asks for a block before the first buffer, and for another one behind the payload.
abbrev schedule : Schedule
schedule = (request (hex (4 ∷ [])) ∷ []) ∷ []

abbrev rounds : Schedule
rounds = [] ∷ (request (hex (5 ∷ [])) ∷ []) ∷ []

parse_from_buffer-request_stream_example :
    (out : List Buffer) × (drain
        (request_stream
          (1 ∷ [])
          (new_control true)
          schedule
          rounds
          (payload node [] (outgoing letters))).0
      ≡ ok out)
    × (parse_from_buffer node no_bytes 1 decode is_empty_type [] is_text 0 given given_modes
          (reader (1 ∷ []) (new_control true) out).1
          []
        ≡ (received_of letters, []))
parse_from_buffer-request_stream_example =
    parse_from_buffer-request_stream node no_bytes 1 decode is_empty_type [] [] node [] is_text 0
      given given_modes indices modes letters (1 ∷ []) schedule rounds (new_control true) prepared
      letters-All-IsReceived refl
