-- ===== src/Control/Runs.antt =====
-- Concrete runs, and the theorems at concrete inputs.
use bee_rpc_over_grpc_py.Prelude.{
  ◌≡◌, refl, true, ◌||◌, List, [], ◌∷◌, none, some, contains, bytes_eq, arith,
}
use bee_rpc_over_grpc_py.Outcome.{err, value_error}
use bee_rpc_over_grpc_py.Varint.{Bytes}
use bee_rpc_over_grpc_py.Hex.{hex, from_hex}
use bee_rpc_over_grpc_py.Wire.{Buffer, empty_buffer}
use bee_rpc_over_grpc_py.Pointer.{pointer_of_bytes}
use bee_rpc_over_grpc_py.Control.{
  StreamControl, new_control, skip_buffer, request_skip, should_skip, pending_outbound,
  next_outbound, observe, skipped_block_id, is_inert, reader,
}
use bee_rpc_over_grpc_py.Control.Queue.{
  Call, request, pending, perform, perform_all, next_outbound-perform_all,
}
use bee_rpc_over_grpc_py.Control.Race.{interleaved, interleaved_lost_wakeup}
use bee_rpc_over_grpc_py.Control.Reader.{
  is_requested, should_skip-reader, request_for, should_skip-request_skip,
}

abbrev sha : Bytes
sha = 1 ∷ []

-- `ab` and `cd` in hexadecimal.
abbrev id_ab : Bytes
id_ab = 97 ∷ 98 ∷ []

abbrev id_cd : Bytes
id_cd = 99 ∷ 100 ∷ []

abbrev payload_buffer : Buffer
payload_buffer = record empty_buffer { chunk = some (5 ∷ []) }

-- A payload that carries a request, and the request alone.
abbrev both : Buffer
both = record (request_for sha (0xcd ∷ [])) { chunk = some (6 ∷ []) }

abbrev incoming : List Buffer
incoming = payload_buffer ∷ request_for sha (0xab ∷ []) ∷ both ∷ []

malformed_id : (request_skip sha (new_control true) (97 ∷ [])).1 ≡ err value_error
unfolding request_skip contains skip_buffer from_hex
malformed_id = refl

reader_yields :
    (reader sha (new_control true) incoming).1
    ≡ payload_buffer ∷ record empty_buffer { chunk = some (6 ∷ []) } ∷ []
unfolding reader observe skipped_block_id is_inert pointer_of_bytes bytes_eq hex
reader_yields = refl

should_skip-reader_example :
    should_skip (reader sha (new_control true) incoming).0 (some id_cd)
    ≡ (contains [] id_cd || is_requested sha id_cd incoming)
should_skip-reader_example = should_skip-reader sha (new_control true) incoming id_cd refl refl

should_skip-request_skip_example :
    should_skip
      (reader sha
        (new_control true)
        (pending_outbound (request_skip sha (new_control true) (hex (0xab ∷ []))).0).1).0
      (some (hex (0xab ∷ [])))
    ≡ true
unfolding hex contains
should_skip-request_skip_example =
    should_skip-request_skip sha (0xab ∷ []) (new_control true) (new_control true) (omega arith, tt)
      refl refl refl refl

abbrev calls : List Call
calls = request id_ab ∷ pending ∷ request id_cd ∷ request id_ab ∷ []

next_outbound-perform_all_example :
    ((next_outbound (perform_all sha (new_control true) calls)).1
      ≡ some (request_for sha (0xcd ∷ [])))
    × ((next_outbound (perform_all sha (new_control true) calls)).0.outbound ≡ [])
unfolding perform_all perform request_skip pending_outbound contains skip_buffer bytes_eq from_hex
next_outbound-perform_all_example =
    next_outbound-perform_all sha true calls (request_for sha (0xcd ∷ [])) [] refl refl

abbrev asked_ab : StreamControl
asked_ab = record (new_control true) {
  asked = id_ab ∷ [];
  outbound = request_for sha (0xab ∷ []) ∷ [];
  outbound_ready = true;
}

interleaved_lost_wakeup_example :
    ((interleaved sha asked_ab id_cd).outbound ≡ request_for sha (0xcd ∷ []) ∷ [])
    × (next_outbound (interleaved sha asked_ab id_cd) ≡ (interleaved sha asked_ab id_cd, none))
unfolding contains bytes_eq skip_buffer from_hex
interleaved_lost_wakeup_example =
    interleaved_lost_wakeup sha asked_ab id_cd (request_for sha (0xcd ∷ [])) refl refl refl refl
      refl
