-- ===== src/Sending/RoundTrip.antt =====
-- A message that is sent is the message that is parsed.
use bee_rpc_over_grpc_py.Prelude.{
  ℕ, zero, suc, ◌≤◌, ◌<◌, ◌≡◌, ◌≢◌, refl, sym, ap, ◌∙◌, Bool, true, false, not, ◌&&◌, Option, none,
  some, List, [], ◌∷◌, ◌++◌, append-nil, append_assoc, length, length-append, take, drop,
  take-append-drop, length-drop, ltb, arith, Bool-cases, inl, inr,
}
use bee_rpc_over_grpc_py.Outcome.{Result, ok}
use bee_rpc_over_grpc_py.Trace.{Trace, stop, next, ◌then_from◌, drain}
use bee_rpc_over_grpc_py.Varint.{Bytes}
use bee_rpc_over_grpc_py.Wire.{Buffer, empty_buffer}
use bee_rpc_over_grpc_py.Environment.{Environment}
use bee_rpc_over_grpc_py.Store.{
  Store, chunk_size, chunk_loop, pieces, to_buffers, block_exists, read_from_registry,
}
use bee_rpc_over_grpc_py.Parser.{Effects, ends, after_yield, parser_iterator}
use bee_rpc_over_grpc_py.Parser.Nested.{iterate-chunk}
use bee_rpc_over_grpc_py.Receiving.{accumulate, accumulate_one, decoded, from_run, parse_message}
use bee_rpc_over_grpc_py.Sending.{head_buffer, separator_buffer, send_message}

-- The buffers of these chunks, and the chunks in one.
abbrev pub chunk_buffers : List Bytes → List Buffer
chunk_buffers [] = []
chunk_buffers (c ∷ cs) = record empty_buffer { chunk = some c } ∷ chunk_buffers cs

pub length-chunk_buffers : (cs : List Bytes) → length (chunk_buffers cs) ≡ length cs
length-chunk_buffers [] = refl
length-chunk_buffers (c ∷ cs) = omega (arith, length-chunk_buffers cs)

abbrev pub glued : List Bytes → Bytes
glued [] = []
glued (c ∷ cs) = c ++ glued cs

-- A small message: one buffer that has the head, the chunk and the separator.
abbrev pub whole_buffer : ℕ → Bytes → Buffer
whole_buffer index bs = record empty_buffer {
  chunk = some bs;
  head = some index;
  separator = some true;
}

module _ (env : Environment) (store : Store) where
  -- The stream of a file: chunks that make up its content, and then what follows.
  pub drain-chunk_loop :
      (fuel : ℕ) (content : Bytes) (later : Trace Buffer) (out : List Buffer)
      → length content ≤ fuel
      → drain later ≡ ok out
      → (cs : List Bytes) × (drain
            (to_buffers env store (pieces (chunk_loop fuel content)) then_from later)
          ≡ ok (chunk_buffers cs ++ out))
        × (glued cs ≡ content)
  unfolding chunk_loop
  drain-chunk_loop fuel [] later out h k = ([], k, refl)
  drain-chunk_loop zero (b ∷ bs) later out h k = absurd (omega arith)
  drain-chunk_loop (suc fuel) (b ∷ bs) later out h k =
      let (cs, drained, same) =
        drain-chunk_loop fuel (drop chunk_size (b ∷ bs)) later out
          (omega (arith, length-drop chunk_size (b ∷ bs))) k in
      (
        take chunk_size (b ∷ bs) ∷ cs,
        rw drained refl,
        ap (λ t. take chunk_size (b ∷ bs) ++ t) same ∙ take-append-drop chunk_size (b ∷ bs),
      )

  -- The loop of `parse_message` over chunks.
  accumulate-chunks :
      (cs : List Bytes) (all_buffer : Bytes)
      → accumulate env store all_buffer none (chunk_buffers cs) ≡ ok (all_buffer ++ glued cs)
  unfolding accumulate
  accumulate-chunks [] all_buffer = ap ok (sym (append-nil all_buffer))
  accumulate-chunks (c ∷ cs) all_buffer =
      (unfold accumulate_one in accumulate-chunks cs (all_buffer ++ c))
      ∙ ap ok (append_assoc all_buffer c (glued cs))

  abbrev exists : Bytes → Bool
  exists id = (block_exists store id).0

  -- The iterator over chunks and the separator behind them.
  iterate_chunks :
      (cs : List Bytes) (fuel : ℕ) (rest : List Buffer) (fx : Effects)
      → length cs < fuel
      → parser_iterator env.hash_type exists fuel false []
          (chunk_buffers cs ++ (separator_buffer ∷ rest))
          fx
        ≡ after_yield (chunk_buffers cs) (ends [] rest fx)
  iterate_chunks cs zero rest fx h = absurd (omega (arith, h))
  iterate_chunks [] (suc fuel) rest fx h = unfold parser_iterator in refl
  iterate_chunks (c ∷ cs) (suc fuel) rest fx h =
      iterate-chunk env.hash_type exists fuel false [] (record empty_buffer { chunk = some c })
        (chunk_buffers cs ++ (separator_buffer ∷ rest)) fx (refl, refl, refl)
      ∙ ap (λ r. after_yield (record empty_buffer { chunk = some c } ∷ []) r)
          (iterate_chunks cs fuel rest fx (omega (arith, h)))

  -- The head of a message is passed.
  iterate_head :
      (index fuel : ℕ) (input : List Buffer) (fx : Effects)
      → parser_iterator env.hash_type exists (suc fuel) false [] (head_buffer index ∷ input) fx
        ≡ parser_iterator env.hash_type exists fuel false [] input fx
  unfolding parser_iterator
  iterate_head index fuel input fx = refl

  module _ {M : Type 0} (decode : Bytes → Result M) where
    pub decoded-ok :
        (bs : Bytes) (m : M)
        → bs ≢ []
        → decode bs ≡ ok m
        → decoded env store decode bs ≡ ok (some m)
    decoded-ok [] m some_byte h = absurd (some_byte refl)
    decoded-ok (b ∷ bs) m some_byte h = rw h refl

    -- Chunks become the message that they make up.
    from_run-chunks :
        (cs : List Bytes) (o : Option M) (rest : List Buffer) (fx : Effects)
        → decoded env store decode (glued cs) ≡ ok o
        → from_run env store decode (after_yield (chunk_buffers cs) (ends [] rest fx))
          ≡ ok (o, (rest, fx))
    from_run-chunks cs o rest fx made =
        rw (append-nil (chunk_buffers cs), accumulate-chunks cs [], made) refl

    parse_large :
        (cs : List Bytes) (o : Option M) (index fuel : ℕ) (rest : List Buffer) (fx : Effects)
        → decoded env store decode (glued cs) ≡ ok o
        → length cs < fuel
        → parse_message env store decode
            (suc fuel)
            (head_buffer index ∷ (chunk_buffers cs ++ (separator_buffer ∷ rest)))
            fx
          ≡ ok (o, (rest, fx))
    unfolding parse_message
    parse_large cs o index fuel rest fx made h =
        ap (λ r. from_run env store decode r)
          (iterate_head index fuel (chunk_buffers cs ++ (separator_buffer ∷ rest)) fx
            ∙ iterate_chunks cs fuel rest fx h)
        ∙ from_run-chunks cs o rest fx made

    pub parse_sent :
        (cs : List Bytes) (o : Option M) (index : ℕ) (rest : List Buffer) (fx : Effects)
        → decoded env store decode (glued cs) ≡ ok o
        → parse_message env store decode
            (suc (suc (length ((chunk_buffers cs ++ (separator_buffer ∷ [])) ++ rest))))
            (head_buffer index ∷ ((chunk_buffers cs ++ (separator_buffer ∷ [])) ++ rest))
            fx
          ≡ ok (o, (rest, fx))
    parse_sent cs o index rest fx made =
        rw (append_assoc (chunk_buffers cs) (separator_buffer ∷ []) rest) (
          parse_large cs o index (suc (length (chunk_buffers cs ++ (separator_buffer ∷ rest)))) rest
            fx made
            (omega (
              arith,
              length-append (chunk_buffers cs) (separator_buffer ∷ rest),
              length-chunk_buffers cs,
            )))

    pub parse_small :
        (bs : Bytes) (o : Option M) (index fuel : ℕ) (rest : List Buffer) (fx : Effects)
        → decoded env store decode bs ≡ ok o
        → parse_message env store decode (suc fuel) (whole_buffer index bs ∷ rest) fx
          ≡ ok (o, (rest, fx))
    unfolding parse_message parser_iterator accumulate accumulate_one
    parse_small bs o index fuel rest fx made = rw made refl

    -- A message of at least one byte, of whatever size, that is sent without a control: nothing is
    -- raised, and where its bytes decode to a message, `parse_message` returns this message and leaves
    -- what follows in the stream; the fuel is one more than there are buffers.
    pub parse_message-send_message :
        (message_bytes : Bytes) (contains_blocks : Bool) (m : M) (index : ℕ) (rest : List Buffer)
        (fx : Effects)
        → message_bytes ≢ []
        → decode message_bytes ≡ ok m
        → (out : List Buffer) × (drain (send_message env store index message_bytes contains_blocks)
            ≡ ok out)
          × (parse_message env store decode (suc (length (out ++ rest))) (out ++ rest) fx
              ≡ ok (some m, (rest, fx)))
    unfolding send_message read_from_registry
    parse_message-send_message message_bytes contains_blocks m index rest fx some_byte decodes =
        elim (Bool-cases (ltb (length message_bytes) chunk_size && not contains_blocks)) [
          | inl small ↦ rw small (
            whole_buffer index message_bytes ∷ [],
            refl,
            parse_small message_bytes (some m) index _ rest fx
                (decoded-ok message_bytes m some_byte decodes),
          )
          | inr large ↦
              let (cs, drained, same) =
                drain-chunk_loop (length message_bytes) message_bytes (next separator_buffer stop)
                  (separator_buffer ∷ []) (omega arith) refl in
              rw large (
                head_buffer index ∷ (chunk_buffers cs ++ (separator_buffer ∷ [])),
                rw drained refl,
                parse_sent cs (some m) index rest fx
                    (rw same (decoded-ok message_bytes m some_byte decodes)),
              )
        ]
