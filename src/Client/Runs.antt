-- ===== src/Client/Runs.antt =====
-- Concrete runs, and the theorems at concrete inputs.
use bee_rpc_over_grpc_py.Prelude.{
  ◌≡◌, refl, Bool, true, false, none, some, ℕ, List, [], ◌∷◌, ◌==◌, leb, bytes_eq, contains,
}
use bee_rpc_over_grpc_py.Outcome.{Result, ok}
use bee_rpc_over_grpc_py.Trace.{Trace, stop, next, drain}
use bee_rpc_over_grpc_py.Varint.{Bytes}
use bee_rpc_over_grpc_py.Wire.{Block, Buffer, empty_buffer}
use bee_rpc_over_grpc_py.Environment.{Environment}
use bee_rpc_over_grpc_py.Hex.{hex, from_hex}
use bee_rpc_over_grpc_py.Pointer.{pointer_of_bytes}
use bee_rpc_over_grpc_py.Control.{new_control, request_skip, reader}
use bee_rpc_over_grpc_py.Control.Queue.{Call, request, perform, perform_all}
use bee_rpc_over_grpc_py.Sending.Interleave.{Schedule, with_control}
use bee_rpc_over_grpc_py.Sending.Setup.{not_given, iterator, prepare_sending, serialize_to_buffer}
use bee_rpc_over_grpc_py.Receiving.Setup.{no_indices, one_type, one_mode}
use bee_rpc_over_grpc_py.Receiving.Loop.{in_memory, parse_from_buffer}
use bee_rpc_over_grpc_py.Exchange.Defaults.{Sample, items, all_got}
use bee_rpc_over_grpc_py.Client.{client_grpc, sent_request, client_grpc_block_skip}
use bee_rpc_over_grpc_py.Client.Skipping.{client_grpc_block_skip-answers}
use bee_rpc_over_grpc_py.Client.Call.{client_grpc-answers}

abbrev node : Environment
node = record {
  cache_dir = [];
  block_dir = [];
  block_depth = 1;
  skip_wbp_generation = false;
  hash_factory = λ content. 1 ∷ content;
  hash_type = 1 ∷ [];
  algorithms = [];
  removed = [];
}

-- The types are bytes, 0, questions, 1, answers, 2, and `Empty`, 3.
abbrev decode : ℕ → Bytes → Result Bytes
decode t bytes = ok bytes

abbrev is_message : ℕ → Bool
is_message t = leb 1 t

abbrev is_empty_type : ℕ → Bool
is_empty_type t = t == 3

abbrev same_type : ℕ → ℕ → Bool
same_type t u = t == u

abbrev no_bytes : Block → Bytes
no_bytes b = []

abbrev sample : Bytes → Sample Bytes
sample bs = record { message = bs; bytes = bs; contains_blocks = false }

abbrev whole : Bytes → Buffer
whole bs = record empty_buffer { chunk = some bs; head = some 1; separator = some true }

abbrev response : List Buffer
response = whole (8 ∷ []) ∷ whole (9 ∷ []) ∷ []

abbrev method : Trace Buffer → List Buffer
method stream = response

-- Nothing is sent or expected: an `Empty` each way.
empty_call :
    client_grpc node no_bytes 1 decode is_empty_type [] same_type is_message 0 3
      (λ stream. whole [] ∷ [])
      not_given
      no_indices
      none
      no_indices
      []
    ≡ (next (in_memory []) stop, [])
unfolding client_grpc
empty_call = refl

client_grpc-answers_example :
    ((out : List Buffer) × (drain (
          serialize_to_buffer same_type is_message 0 3 node [] no_indices
            (iterator (items 1 (sample (7 ∷ []) ∷ []))))
        ≡ ok out)
      × (parse_from_buffer node no_bytes 1 decode is_empty_type [] is_message 0
            (one_type 1)
            (one_mode false)
            out
            []
          ≡ (all_got 1 false (sample (7 ∷ []) ∷ []), [])))
    × (client_grpc node no_bytes 1 decode is_empty_type [] same_type is_message 0 3 method
          (iterator (items 1 (sample (7 ∷ []) ∷ [])))
          (one_type 2)
          (some (one_mode true))
          no_indices
          []
        ≡ (all_got 2 true (sample (8 ∷ []) ∷ sample (9 ∷ []) ∷ []), []))
unfolding serialize_to_buffer
client_grpc-answers_example =
    client_grpc-answers decode is_empty_type [] same_type is_message 0 3 node node [] [] no_bytes
      no_bytes 1 1 1 2 true false (sample (7 ∷ [])) (sample (8 ∷ [])) [] (sample (9 ∷ []) ∷ [])
      method response (refl, refl) (refl, refl) (((λ h. cc), refl), tt)
      (((λ h. cc), refl), (((λ h. cc), refl), tt)) refl refl

-- The server asks for a block before its answers, the client's parser before its message.
abbrev asked_before : List Call
asked_before = request (hex (4 ∷ [])) ∷ []

abbrev schedule : Schedule
schedule = (request (hex (5 ∷ [])) ∷ []) ∷ []

abbrev asked : Bytes → Buffer
asked id = record empty_buffer { skip = some (pointer_of_bytes (1 ∷ []) id false); chunk = some [] }

abbrev answers : List Buffer
answers = asked (4 ∷ []) ∷ response

abbrev skipping_method : Trace Buffer → List Buffer
skipping_method stream = answers

answered :
    drain
      (with_control (1 ∷ []) (perform_all (1 ∷ []) (new_control true) asked_before) [] (
        serialize_to_buffer same_type is_message 0 3 node [] no_indices
          (iterator (items 2 (sample (8 ∷ []) ∷ sample (9 ∷ []) ∷ []))))).0
    ≡ ok answers
unfolding with_control serialize_to_buffer request_skip bytes_eq hex contains perform from_hex
answered = refl

client_grpc_block_skip-answers_example :
    ((out : List Buffer) × (drain
          (sent_request node no_bytes 1 decode is_empty_type [] same_type is_message 0 3 schedule []
            []
            (prepare_sending same_type is_message 0 3 no_indices
              (iterator (items 1 (sample (7 ∷ []) ∷ []))))).0
        ≡ ok out)
      × (parse_from_buffer node no_bytes 1 decode is_empty_type [] is_message 0
            (one_type 1)
            (one_mode false)
            (reader (1 ∷ []) (new_control true) out).1
            []
          ≡ (all_got 1 false (sample (7 ∷ []) ∷ []), [])))
    × (client_grpc_block_skip node no_bytes 1 decode is_empty_type [] same_type is_message 0 3
          skipping_method
          (iterator (items 1 (sample (7 ∷ []) ∷ [])))
          (one_type 2)
          (some (one_mode true))
          no_indices
          schedule
          []
          []
        ≡ (all_got 2 true (sample (8 ∷ []) ∷ sample (9 ∷ []) ∷ []), []))
client_grpc_block_skip-answers_example =
    client_grpc_block_skip-answers decode is_empty_type [] same_type is_message 0 3 node node [] []
      no_bytes no_bytes 1 1 1 2 true false (sample (7 ∷ [])) (sample (8 ∷ [])) []
      (sample (9 ∷ []) ∷ []) skipping_method answers schedule [] [] asked_before (new_control true)
      (refl, refl) (refl, refl) (((λ h. cc), refl), tt) (((λ h. cc), refl), (((λ h. cc), refl), tt))
      refl answered refl
