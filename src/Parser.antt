-- ===== src/Parser.antt =====
-- The receiver's iterator over one part of a stream: `parser_iterator` inside `parse_from_buffer`,
-- `signal_block_buffer_stream` and `stop_generator` (src/bee_rpc/client.py). The iterator that all
-- frames of the recursion share is the list of the buffers that are still to come; a frame returns
-- what it leaves of it. `blocks` is shared too, and stands innermost first. Whether a block is held
-- locally is a function of its id. The recursion is on fuel: each round takes a buffer, so one more
-- than there are buffers is enough.
pub mod Nested
pub mod Lazy
mod Runs
use bee_rpc_over_grpc_py.Prelude.{
  ℕ, zero, suc, ◌+◌, Bool, true, false, not, Option, none, some, List, [], ◌∷◌, ◌++◌, length,
  contains, bytes_eq, leb, if◌then◌else◌,
}
use bee_rpc_over_grpc_py.Outcome.{Error, Result, ok, err, plain, recursion_error}
use bee_rpc_over_grpc_py.Trace.{Trace, stop, raise, next}
use bee_rpc_over_grpc_py.Varint.{Bytes}
use bee_rpc_over_grpc_py.Wire.{Block, Buffer, has, is_set, nonempty}
use bee_rpc_over_grpc_py.Pointer.{get_hash_from_block}
use bee_rpc_over_grpc_py.Control.{StreamControl, request_skip}

abbrev pub max_block_nesting : ℕ
max_block_nesting = 32

-- What the iterator changes beside the stream: how often `signal.change()` was called, and the
-- control that skip requests are queued in.
pub record Effects : Type 0 where
  pub signals : ℕ
  pub control : Option StreamControl

-- The buffers that are yielded, and then the open blocks and the rest of the stream, or an error.
pub record Run : Type 0 where
  pub yielded : List Buffer
  pub ending : Result (List Bytes × List Buffer)
  pub effects : Effects

abbrev pub ends : List Bytes → List Buffer → Effects → Run
ends blocks rest fx = record { yielded = []; ending = ok (blocks, rest); effects = fx }

abbrev pub fails : Error → Effects → Run
fails e fx = record { yielded = []; ending = err e; effects = fx }

abbrev pub after_yield : List Buffer → Run → Run
after_yield bs r = record r { yielded = bs ++ r.yielded }

module _ (hash_type : Bytes) (exists : Bytes → Bool) where
  abbrev with_control : Option StreamControl → Bytes → Option StreamControl
  with_control none id = none
  with_control (some c) id = some (request_skip hash_type c id).0

  -- `signal_block_buffer_stream`
  unfoldable pub signal_block_buffer_stream : Bytes → Effects → Effects
  signal_block_buffer_stream id fx = record fx { control = with_control fx.control id }

  abbrev pub note_signal : Buffer → Effects → Effects
  note_signal b fx = record fx { signals = if is_set b.signal then fx.signals + 1 else fx.signals }

  -- A frame: whether it began inside a block, the open blocks, the stream.
  abbrev pub Frame : Type 0
  Frame = Bool → List Bytes → List Buffer → Effects → Run

  -- `if separator: break`, and the next round otherwise.
  abbrev pub unless_separator : Frame → Bool → List Bytes → Buffer → List Buffer → Effects → Run
  unless_separator loop inside blocks b input fx =
      if is_set b.separator then ends blocks input fx else loop inside blocks input fx

  -- The end of the loop's body.
  abbrev pub on_chunk : Frame → Bool → List Bytes → Buffer → List Buffer → Effects → Run
  on_chunk loop inside blocks b input fx =
      if has b.chunk
      then after_yield (b ∷ []) (unless_separator loop inside blocks b input fx)
      else if not (has b.head)
      then ends blocks input fx
      else unless_separator loop inside blocks b input fx

  -- A marker of an open block.
  abbrev pub close_block : List Bytes → Bytes → Buffer → List Buffer → Effects → Run
  close_block [] id b input fx = fails plain fx
  close_block (top ∷ blocks) id b input fx =
      if bytes_eq top id
      then after_yield (if nonempty blocks then b ∷ [] else []) (ends blocks input fx)
      else fails plain fx

  -- What follows a nested frame that ended.
  abbrev pub resume : Frame → Bool → Buffer → Result (List Bytes × List Buffer) → Effects → Run
  resume loop inside b (err e) fx = fails e fx
  resume loop inside b (ok (blocks, input)) fx =
      if inside then loop inside blocks input fx else on_chunk loop inside blocks b input fx

  abbrev pub open_block : Frame → Bool → List Bytes → Bytes → Buffer → List Buffer → Effects → Run
  open_block loop inside blocks id b input fx =
      let fx' = if exists id then signal_block_buffer_stream id fx else fx in
      let nested = loop true (id ∷ blocks) input fx' in
      after_yield (b ∷ nested.yielded) (resume loop inside b nested.ending nested.effects)

  abbrev pub on_block : Frame → Bool → List Bytes → Bytes → Buffer → List Buffer → Effects → Run
  on_block loop inside blocks id b input fx =
      if contains blocks id
      then close_block blocks id b input fx
      else if leb max_block_nesting (length blocks)
      then fails plain fx
      else open_block loop inside blocks id b input fx

  -- `block_hash` is the id; a block without one, or with an empty one, is no marker.
  abbrev pub on_hash :
      Frame → Bool → List Bytes → Buffer → List Buffer → Effects → Option Bytes → Run
  on_hash loop inside blocks b input fx none = on_chunk loop inside blocks b input fx
  on_hash loop inside blocks b input fx (some []) = on_chunk loop inside blocks b input fx
  on_hash loop inside blocks b input fx (some (c ∷ cs)) =
      on_block loop inside blocks (c ∷ cs) b input fx

  abbrev pub on_buffer :
      Frame → Bool → List Bytes → Buffer → List Buffer → Effects → Option Block → Run
  on_buffer loop inside blocks b input fx none = on_chunk loop inside blocks b input fx
  on_buffer loop inside blocks b input fx (some block) =
      on_hash loop inside blocks b input fx (get_hash_from_block hash_type block false true)

  unfoldable pub parser_iterator : ℕ → Frame
  unfolding signal_block_buffer_stream
  parser_iterator zero inside blocks input fx = fails recursion_error fx
  parser_iterator (suc fuel) inside blocks [] fx = ends blocks [] fx
  parser_iterator (suc fuel) inside blocks (b ∷ input) fx =
      on_buffer (parser_iterator fuel) inside blocks b input (note_signal b fx) b.block

abbrev pub is_marker_of : Bytes → Option Bytes → Bool
is_marker_of id none = false
is_marker_of id (some other) = bytes_eq other id

module _ (hash_type : Bytes) where
  abbrev pub block_key : Option Block → Option Bytes
  block_key none = none
  block_key (some block) = get_hash_from_block hash_type block false true

  -- It yields the marker that it stops at with the block cleared, and leaves the rest; the Boolean says
  -- that it never met the marker and asked to the end.
  unfoldable pub stop_generator : Bytes → Trace Buffer → Trace Buffer × (Trace Buffer × Bool)
  stop_generator id stop = (stop, (stop, true))
  stop_generator id (raise e) = (raise e, (raise e, true))
  stop_generator id (next b input) =
      let (out, rest) = stop_generator id input in
      if is_marker_of id (block_key b.block)
      then (next (record b { block = none }) stop, (input, false))
      else (next b out, rest)
