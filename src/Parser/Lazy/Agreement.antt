-- ===== src/Parser/Lazy/Agreement.antt =====
-- The generator with the rests of the stream yields what `parser_iterator` yields (src/bee_rpc/client.py).
use bee_rpc_over_grpc_py.Prelude.{
  ℕ, zero, suc, ◌≡◌, refl, ap, ◌∙◌, Bool, true, false, Option, none, some, List, [], ◌∷◌, ◌++◌,
  length, contains, bytes_eq, leb, if◌then◌else◌, Bool-cases, inl, inr,
}
use bee_rpc_over_grpc_py.Outcome.{Result, ok, err}
use bee_rpc_over_grpc_py.Varint.{Bytes}
use bee_rpc_over_grpc_py.Wire.{Block, Buffer, has, is_set, nonempty}
use bee_rpc_over_grpc_py.Pointer.{get_hash_from_block}
use bee_rpc_over_grpc_py.Parser.{
  max_block_nesting, Effects, Run, note_signal, signal_block_buffer_stream, unless_separator,
  on_chunk, close_block, resume, open_block, on_block, on_hash, on_buffer, Frame, parser_iterator,
}
use bee_rpc_over_grpc_py.Parser.Lazy.{
  Feed, over, yields, go_on, FeedFrame, feed_separator, feed_chunk, feed_close, feed_resume,
  feed_open, feed_block, feed_hash, feed_buffer, feed_iterator, yielded_of, ending_of,
}

-- The iterator and the generator agree.
abbrev Agrees : Feed → Run → Type 0
Agrees f r = (yielded_of f ≡ r.yielded) × (ending_of f ≡ r.ending)

yielded_of-go_on :
    (f : Feed) (k : Result (List Bytes × List Buffer) → Feed)
    → yielded_of (go_on f k) ≡ yielded_of f ++ yielded_of (k (ending_of f))
yielded_of-go_on (over r) k = refl
yielded_of-go_on (yields b rest f) k = ap (λ bs. b ∷ bs) (yielded_of-go_on f k)

ending_of-go_on :
    (f : Feed) (k : Result (List Bytes × List Buffer) → Feed)
    → ending_of (go_on f k) ≡ ending_of (k (ending_of f))
ending_of-go_on (over r) k = refl
ending_of-go_on (yields b rest f) k = ending_of-go_on f k

module _ (hash_type : Bytes) (exists : Bytes → Bool) where
  -- A step of the two loops.
  abbrev Alike : FeedFrame → Frame hash_type exists → Type 0
  Alike feeds loop =
      (inside : Bool) (blocks : List Bytes) (input : List Buffer) (fx : Effects)
      → Agrees (feeds inside blocks input) (loop inside blocks input fx)

  module _ (feeds : FeedFrame) (loop : Frame hash_type exists) (alike : Alike feeds loop) where
    separator-Agrees :
        (inside : Bool) (blocks : List Bytes) (b : Buffer) (input : List Buffer) (fx : Effects)
        → Agrees
            (feed_separator feeds inside blocks b input)
            (unless_separator hash_type exists loop inside blocks b input fx)
    separator-Agrees inside blocks b input fx = elim (Bool-cases (is_set b.separator)) [
      | inl t ↦ rw t (refl, refl)
      | inr t ↦ rw t (alike inside blocks input fx)
    ]

    chunk-Agrees :
        (inside : Bool) (blocks : List Bytes) (b : Buffer) (input : List Buffer) (fx : Effects)
        → Agrees
            (feed_chunk feeds inside blocks b input)
            (on_chunk hash_type exists loop inside blocks b input fx)
    chunk-Agrees inside blocks b input fx =
        let (same, ending) = separator-Agrees inside blocks b input fx in
        elim (Bool-cases (has b.chunk)) [
          | inl t ↦ rw t (ap (λ bs. b ∷ bs) same, ending)
          | inr t ↦ rw t (elim (Bool-cases (has b.head)) [
            | inl head ↦ rw head (same, ending)
            | inr none_there ↦ rw none_there (refl, refl)
          ])
        ]

    close-Agrees :
        (blocks : List Bytes) (id : Bytes) (b : Buffer) (input : List Buffer) (fx : Effects)
        → Agrees (feed_close blocks id b input) (close_block hash_type exists blocks id b input fx)
    close-Agrees [] id b input fx = (refl, refl)
    close-Agrees (top ∷ blocks) id b input fx = elim (Bool-cases (bytes_eq top id)) [
      | inl t ↦ rw t (elim (Bool-cases (nonempty blocks)) [
        | inl inner ↦ rw inner (refl, refl)
        | inr outermost ↦ rw outermost (refl, refl)
      ])
      | inr t ↦ rw t (refl, refl)
    ]

    resume-Agrees :
        (inside : Bool) (b : Buffer) (r : Result (List Bytes × List Buffer)) (fx : Effects)
        → Agrees (feed_resume feeds inside b r) (resume hash_type exists loop inside b r fx)
    resume-Agrees inside b (err e) fx = (refl, refl)
    resume-Agrees true b (ok (blocks, input)) fx = alike true blocks input fx
    resume-Agrees false b (ok (blocks, input)) fx = chunk-Agrees false blocks b input fx

    open-Agrees :
        (inside : Bool) (blocks : List Bytes) (id : Bytes) (b : Buffer) (input : List Buffer)
        (fx : Effects)
        → Agrees
            (feed_open feeds inside blocks id b input)
            (open_block hash_type exists loop inside blocks id b input fx)
    open-Agrees inside blocks id b input fx =
        let fx' = if exists id then signal_block_buffer_stream hash_type exists id fx else fx in
        let nested = loop true (id ∷ blocks) input fx' in
        let f = feeds true (id ∷ blocks) input in
        let (same, ending) = alike true (id ∷ blocks) input fx' in
        let (same', ending') = resume-Agrees inside b nested.ending nested.effects in
        (
          ap (λ bs. b ∷ bs)
              (yielded_of-go_on f (feed_resume feeds inside b)
                ∙ rw (same, ending) (ap (λ bs. nested.yielded ++ bs) same')),
          ending_of-go_on f (feed_resume feeds inside b) ∙ rw ending ending',
        )

    block-Agrees :
        (inside : Bool) (blocks : List Bytes) (id : Bytes) (b : Buffer) (input : List Buffer)
        (fx : Effects)
        → Agrees
            (feed_block feeds inside blocks id b input)
            (on_block hash_type exists loop inside blocks id b input fx)
    block-Agrees inside blocks id b input fx = elim (Bool-cases (contains blocks id)) [
      | inl known ↦ rw known (close-Agrees blocks id b input fx)
      | inr new ↦ rw new (elim (Bool-cases (leb max_block_nesting (length blocks))) [
        | inl deep ↦ rw deep (refl, refl)
        | inr room ↦ rw room (open-Agrees inside blocks id b input fx)
      ])
    ]

    hash-Agrees :
        (inside : Bool) (blocks : List Bytes) (b : Buffer) (input : List Buffer) (fx : Effects)
        (o : Option Bytes)
        → Agrees
            (feed_hash feeds inside blocks b input o)
            (on_hash hash_type exists loop inside blocks b input fx o)
    hash-Agrees inside blocks b input fx none = chunk-Agrees inside blocks b input fx
    hash-Agrees inside blocks b input fx (some []) = chunk-Agrees inside blocks b input fx
    hash-Agrees inside blocks b input fx (some (c ∷ cs)) =
        block-Agrees inside blocks (c ∷ cs) b input fx

    buffer-Agrees :
        (inside : Bool) (blocks : List Bytes) (b : Buffer) (input : List Buffer) (fx : Effects)
        (o : Option Block)
        → Agrees
            (feed_buffer hash_type feeds inside blocks b input o)
            (on_buffer hash_type exists loop inside blocks b input fx o)
    buffer-Agrees inside blocks b input fx none = chunk-Agrees inside blocks b input fx
    buffer-Agrees inside blocks b input fx (some block) =
        hash-Agrees inside blocks b input fx (get_hash_from_block hash_type block false true)

  -- The generator yields what the iterator yields and ends as it does, whichever blocks are held.
  feed_iterator-parser_iterator :
      (fuel : ℕ) (inside : Bool) (blocks : List Bytes) (input : List Buffer) (fx : Effects)
      → (yielded_of (feed_iterator hash_type fuel inside blocks input)
          ≡ (parser_iterator hash_type exists fuel inside blocks input fx).yielded)
        × (ending_of (feed_iterator hash_type fuel inside blocks input)
            ≡ (parser_iterator hash_type exists fuel inside blocks input fx).ending)
  unfolding feed_iterator parser_iterator
  feed_iterator-parser_iterator zero inside blocks input fx = (refl, refl)
  feed_iterator-parser_iterator (suc fuel) inside blocks [] fx = (refl, refl)
  feed_iterator-parser_iterator (suc fuel) inside blocks (b ∷ input) fx =
      buffer-Agrees (feed_iterator hash_type fuel) (parser_iterator hash_type exists fuel)
        (λ inside' blocks' input' fx'.
          feed_iterator-parser_iterator fuel inside' blocks' input' fx')
        inside blocks b input (note_signal hash_type exists b fx) b.block
