-- ===== src/Receiving.antt =====
-- How a received stream becomes a message in memory: `parse_message` inside `parse_from_buffer`
-- (src/bee_rpc/client.py). What the target type makes of the bytes (`decode`, `ParseFromString` or its
-- constructor) is a parameter. `none` in a result stands for the EmptyBufferException, which the caller
-- catches and goes on from.
pub mod Files
pub mod Setup
pub mod Loop
mod Kept
mod Runs
use bee_rpc_over_grpc_py.Prelude.{
  ℕ, suc, Bool, true, false, Option, none, some, List, [], ◌∷◌, ◌++◌, length, if◌then◌else◌,
}
use bee_rpc_over_grpc_py.Outcome.{Result, ok, err, type_error, ◌>>=◌}
use bee_rpc_over_grpc_py.Varint.{Bytes}
use bee_rpc_over_grpc_py.Wire.{Block, Buffer, chunk_of, nonempty}
use bee_rpc_over_grpc_py.Environment.{Environment}
use bee_rpc_over_grpc_py.Pointer.{get_hash_from_block}
use bee_rpc_over_grpc_py.Skip.{Key, key_eq}
use bee_rpc_over_grpc_py.Store.{Store, block_exists, read_block}
use bee_rpc_over_grpc_py.Store.Chunks.{collect}
use bee_rpc_over_grpc_py.Parser.{Effects, Run, parser_iterator}

-- Python's truth of an id or `None`.
abbrev pub truth : Key → Bool
truth none = false
truth (some id) = nonempty id

module _ (env : Environment) (store : Store) where
  -- Whether a marker of this key is of a block that is held; without a key there is a TypeError.
  abbrev pub is_held : Key → Result Bool
  is_held none = err type_error
  is_held (some id) = ok (block_exists store id).0

  abbrev pub held_content : Key → Result Bytes
  held_content none = err type_error
  held_content (some id) = collect (read_block env store (suc (length store)) id true 1)

  -- A marker, outside a block that is held: one that is held enters it, and its content is read.
  abbrev pub enter : Bytes → Key → Key → Bytes → Bool → Result (Bytes × Key)
  enter all_buffer in_block key chunk false = ok (all_buffer ++ chunk, in_block)
  enter all_buffer in_block key chunk true = do
    content ← held_content key
    ok (all_buffer ++ content, key)

  abbrev pub on_key : Bytes → Key → Key → Bytes → Result (Bytes × Key)
  on_key all_buffer in_block key chunk =
      if key_eq key in_block
      then ok (all_buffer ++ chunk, none)
      else if truth in_block
      then ok (all_buffer, in_block)
      else (is_held key >>= λ held. enter all_buffer in_block key chunk held)

  -- The body of the loop: the buffer so far, and the block that is held and being passed.
  unfoldable pub accumulate_one : Bytes → Key → Buffer → Option Block → Result (Bytes × Key)
  unfolding block_exists read_block collect get_hash_from_block
  accumulate_one all_buffer in_block b none =
      ok (if truth in_block then all_buffer else all_buffer ++ chunk_of b.chunk, in_block)
  accumulate_one all_buffer in_block b (some block) =
      on_key all_buffer in_block (get_hash_from_block env.hash_type block false true)
        (chunk_of b.chunk)

  unfoldable pub accumulate : Bytes → Key → List Buffer → Result Bytes
  unfolding accumulate_one
  accumulate all_buffer in_block [] = ok all_buffer
  accumulate all_buffer in_block (b ∷ bs) = do
    (all_buffer', in_block') ← accumulate_one all_buffer in_block b b.block
    accumulate all_buffer' in_block' bs

  module _ {M : Type 0} (decode : Bytes → Result M) where
    abbrev pub decoded : Bytes → Result (Option M)
    decoded [] = ok none
    decoded (b ∷ bs) = do m ← decode (b ∷ bs); ok (some m)

    -- What is made of what the iterator yields: the message, the rest of the stream, and the effects of
    -- the iterator.
    abbrev pub from_run : Run → Result (Option M × (List Buffer × Effects))
    from_run run = do
      all_buffer ← accumulate [] none run.yielded
      (blocks, rest) ← run.ending
      m ← decoded all_buffer
      ok (m, (rest, run.effects))

    unfoldable pub parse_message :
        ℕ → List Buffer → Effects → Result (Option M × (List Buffer × Effects))
    unfolding parser_iterator accumulate
    parse_message fuel input fx =
        from_run
          (parser_iterator env.hash_type (λ id. (block_exists store id).0) fuel false [] input fx)
