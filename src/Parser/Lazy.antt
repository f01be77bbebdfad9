-- ===== src/Parser/Lazy.antt =====
-- `parser_iterator` (src/bee_rpc/client.py) as the generator that it is: each yield stands with what the
-- shared stream still holds at that moment, for a reader that gives the generator up half way. What it
-- yields does not depend on which blocks are held, so neither these nor the effects stand here.
pub mod Agreement
use bee_rpc_over_grpc_py.Prelude.{
  ℕ, zero, suc, ◌≡◌, refl, ap, ◌∙◌, Bool, true, false, not, Option, none, some, List, [], ◌∷◌, ◌++◌,
  length, contains, bytes_eq, leb, if◌then◌else◌, Bool-cases, inl, inr,
}
use bee_rpc_over_grpc_py.Outcome.{Result, ok, err, plain, recursion_error}
use bee_rpc_over_grpc_py.Trace.{Trace, stop, raise, next}
use bee_rpc_over_grpc_py.Varint.{Bytes}
use bee_rpc_over_grpc_py.Wire.{Block, Buffer, has, is_set, nonempty}
use bee_rpc_over_grpc_py.Pointer.{get_hash_from_block}
use bee_rpc_over_grpc_py.Parser.{
  max_block_nesting, Effects, Run, note_signal, signal_block_buffer_stream, unless_separator,
  on_chunk, close_block, resume, open_block, on_block, on_hash, on_buffer, Frame, parser_iterator,
}

-- What is yielded, with the stream as it is left at that moment, and how it ends.
pub data Feed : Type 0 where
  over : Result (List Bytes × List Buffer) → Feed
  yields : Buffer → List Buffer → Feed → Feed

-- A generator that goes on where another one has ended.
abbrev pub go_on : Feed → (Result (List Bytes × List Buffer) → Feed) → Feed
go_on (over r) k = k r
go_on (yields b rest f) k = yields b rest (go_on f k)

abbrev pub FeedFrame : Type 0
FeedFrame = Bool → List Bytes → List Buffer → Feed

abbrev pub feed_separator : FeedFrame → Bool → List Bytes → Buffer → List Buffer → Feed
feed_separator loop inside blocks b input =
    if is_set b.separator then over (ok (blocks, input)) else loop inside blocks input

abbrev pub feed_chunk : FeedFrame → Bool → List Bytes → Buffer → List Buffer → Feed
feed_chunk loop inside blocks b input =
    if has b.chunk
    then yields b input (feed_separator loop inside blocks b input)
    else if not (has b.head)
    then over (ok (blocks, input))
    else feed_separator loop inside blocks b input

abbrev pub feed_close : List Bytes → Bytes → Buffer → List Buffer → Feed
feed_close [] id b input = over (err plain)
feed_close (top ∷ blocks) id b input =
    if bytes_eq top id
    then (if nonempty blocks
        then yields b input (over (ok (blocks, input)))
        else over (ok (blocks, input)))
    else over (err plain)

abbrev pub feed_resume : FeedFrame → Bool → Buffer → Result (List Bytes × List Buffer) → Feed
feed_resume loop inside b (err e) = over (err e)
feed_resume loop inside b (ok (blocks, input)) =
    if inside then loop inside blocks input else feed_chunk loop inside blocks b input

abbrev pub feed_open : FeedFrame → Bool → List Bytes → Bytes → Buffer → List Buffer → Feed
feed_open loop inside blocks id b input =
    yields b input (go_on (loop true (id ∷ blocks) input) (feed_resume loop inside b))

abbrev pub feed_block : FeedFrame → Bool → List Bytes → Bytes → Buffer → List Buffer → Feed
feed_block loop inside blocks id b input =
    if contains blocks id
    then feed_close blocks id b input
    else if leb max_block_nesting (length blocks)
    then over (err plain)
    else feed_open loop inside blocks id b input

abbrev pub feed_hash : FeedFrame → Bool → List Bytes → Buffer → List Buffer → Option Bytes → Feed
feed_hash loop inside blocks b input none = feed_chunk loop inside blocks b input
feed_hash loop inside blocks b input (some []) = feed_chunk loop inside blocks b input
feed_hash loop inside blocks b input (some (c ∷ cs)) =
    feed_block loop inside blocks (c ∷ cs) b input

abbrev pub feed_buffer :
    Bytes → FeedFrame → Bool → List Bytes → Buffer → List Buffer → Option Block → Feed
feed_buffer hash_type loop inside blocks b input none = feed_chunk loop inside blocks b input
feed_buffer hash_type loop inside blocks b input (some block) =
    feed_hash loop inside blocks b input (get_hash_from_block hash_type block false true)

unfoldable pub feed_iterator : Bytes → ℕ → FeedFrame
feed_iterator hash_type zero inside blocks input = over (err recursion_error)
feed_iterator hash_type (suc fuel) inside blocks [] = over (ok (blocks, []))
feed_iterator hash_type (suc fuel) inside blocks (b ∷ input) =
    feed_buffer hash_type (feed_iterator hash_type fuel) inside blocks b input b.block

-- What a reader of the generator sees.
abbrev trace_end : Result (List Bytes × List Buffer) → Trace Buffer
trace_end (ok r) = stop
trace_end (err e) = raise e

abbrev pub trace_of : Feed → Trace Buffer
trace_of (over r) = trace_end r
trace_of (yields b rest f) = next b (trace_of f)

abbrev rest_end : Result (List Bytes × List Buffer) → List Buffer
rest_end (ok (blocks, input)) = input
rest_end (err e) = []

-- What the stream holds once the generator has ended.
abbrev pub rest_over : Feed → List Buffer
rest_over (over r) = rest_end r
rest_over (yields b rest f) = rest_over f

-- What the stream holds where the generator was left behind its `n`th yield, with what it held before.
unfoldable pub rest_at : ℕ → List Buffer → Feed → List Buffer
rest_at zero input f = input
rest_at (suc n) input (over r) = input
rest_at (suc n) input (yields b rest f) = rest_at n rest f

abbrev pub yielded_of : Feed → List Buffer
yielded_of (over r) = []
yielded_of (yields b rest f) = b ∷ yielded_of f

abbrev pub ending_of : Feed → Result (List Bytes × List Buffer)
ending_of (over r) = r
ending_of (yields b rest f) = ending_of f
