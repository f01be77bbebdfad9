-- ===== src/Exchange/OneMessage.antt =====
-- The stream of one message or of one plain file, and what the two modes of `iterate_message` make of
-- it (src/bee_rpc/client.py).
use bee_rpc_over_grpc_py.Prelude.{
  ◌==◌, ℕ, zero, suc, ◌<◌, ◌≡◌, refl, ap, ◌∙◌, Bool, true, false, not, ◌&&◌, Option, none, some,
  List, [], ◌∷◌, ◌++◌, append-nil, append_assoc, length, length-append, ltb, arith, Bool-cases, inl,
  inr, All,
}
use bee_rpc_over_grpc_py.Outcome.{Result, ok}
use bee_rpc_over_grpc_py.Trace.{Trace, stop, next, drain}
use bee_rpc_over_grpc_py.Varint.{Bytes}
use bee_rpc_over_grpc_py.Wire.{Block, Buffer, empty_buffer, chunk_of}
use bee_rpc_over_grpc_py.Environment.{Environment}
use bee_rpc_over_grpc_py.Store.{Json, num, file, Store, find_part, chunk_size, read_from_registry}
use bee_rpc_over_grpc_py.Driver.{Dict, get_key}
use bee_rpc_over_grpc_py.Receiving.Setup.{has_key}
use bee_rpc_over_grpc_py.Parser.{Effects}
use bee_rpc_over_grpc_py.Parser.Lazy.{feed_iterator, trace_of, rest_over}
use bee_rpc_over_grpc_py.Saving.{SaveBlock, file_loop, save_chunks_to_file}
use bee_rpc_over_grpc_py.Sending.{head_buffer, separator_buffer, send_file, send_message}
use bee_rpc_over_grpc_py.Sending.RoundTrip.{
  chunk_buffers, length-chunk_buffers, glued, drain-chunk_loop, whole_buffer, parse_small,
  parse_sent,
}
use bee_rpc_over_grpc_py.Receiving.{decoded, parse_message}
use bee_rpc_over_grpc_py.Receiving.Files.{feed_of, save_parts, save_to_dir}

-- A key that has a value is there.
pub has_key-get_key :
    {A : Type 0} (d : Dict A) (k : ℕ) (a : A) → get_key d k ≡ ok a → has_key d k ≡ true
unfolding has_key get_key
has_key-get_key [] k a h = cc
has_key-get_key ((k', v) ∷ rest) k a h = elim (Bool-cases (k' == k)) [
  | inl here ↦ rw here refl
  | inr there ↦ rw there (has_key-get_key rest k a (rw there at h))
]

-- One buffer, or a head, chunks and a separator.
pub data Framed (index : ℕ) (bytes : Bytes) : List Buffer → Type 0 where
  whole : Framed index bytes (whole_buffer index bytes ∷ [])
  in_chunks :
      (cs : List Bytes)
      → glued cs ≡ bytes
      → Framed index bytes (head_buffer index ∷ (chunk_buffers cs ++ (separator_buffer ∷ [])))

abbrev IsSent : Trace Buffer → ℕ → Bytes → Type 0
IsSent t index bytes = (out : List Buffer) × (drain t ≡ ok out) × Framed index bytes out

pub Framed-head :
    (index : ℕ) (bytes : Bytes) (out : List Buffer)
    → Framed index bytes out
    → (b : Buffer) × (more : List Buffer) × (out ≡ b ∷ more) × (b.head ≡ some index)
Framed-head index bytes _ whole = (_, _, refl, refl)
Framed-head index bytes _ (in_chunks cs same) = (_, _, refl, refl)

module _ (env : Environment) (store : Store) where
  pub send_file-Framed :
      (index : ℕ) (bytes : Bytes)
      → IsSent (send_file env store index (some (file bytes))) index bytes
  unfolding send_file read_from_registry
  send_file-Framed index bytes =
      let (cs, drained, same) =
        drain-chunk_loop env store (length bytes) bytes (next separator_buffer stop)
          (separator_buffer ∷ []) (omega arith) refl in
      (_, rw drained refl, in_chunks cs same)

  pub send_message-Framed :
      (index : ℕ) (bytes : Bytes) (contains_blocks : Bool)
      → IsSent (send_message env store index bytes contains_blocks) index bytes
  unfolding send_message read_from_registry
  send_message-Framed index bytes contains_blocks =
      elim (Bool-cases (ltb (length bytes) chunk_size && not contains_blocks)) [
        | inl small ↦ rw small (_, refl, whole)
        | inr large ↦
            let (cs, drained, same) =
              drain-chunk_loop env store (length bytes) bytes (next separator_buffer stop)
                (separator_buffer ∷ []) (omega arith) refl in
            rw large (_, rw drained refl, in_chunks cs same)
      ]

  -- In memory.
  pub parse_message-Framed :
      {M : Type 0} (decode : Bytes → Result M) (index : ℕ) (bytes : Bytes) (out rest : List Buffer)
      (o : Option M) (fx : Effects)
      → Framed index bytes out
      → decoded env store decode bytes ≡ ok o
      → parse_message env store decode (suc (length (out ++ rest))) (out ++ rest) fx
        ≡ ok (o, (rest, fx))
  parse_message-Framed decode index bytes _ rest o fx whole made =
      parse_small env store decode bytes o index _ rest fx made
  parse_message-Framed decode index bytes _ rest o fx (in_chunks cs same) made =
      parse_sent env store decode cs o index rest fx (rw same made)

abbrev listed : List Buffer → Trace Buffer
listed [] = stop
listed (b ∷ bs) = next b (listed bs)

abbrev content_of : List Buffer → Bytes
content_of [] = []
content_of (b ∷ bs) = chunk_of b.chunk ++ content_of bs

abbrev NoBlocks : List Buffer → Type 0
NoBlocks bs = All (λ b. b.block ≡ none) bs

file_loop-listed :
    (rec : SaveBlock) (bs : List Buffer) (written : Bytes) (entries : List Json) (store : Store)
    → NoBlocks bs
    → file_loop rec written entries [] (listed bs) store ≡ (
      store,
      ok (record {
        whole = true;
        content = written ++ content_of bs;
        progress = record { input = stop; exhausted = true; hashers = []; entries = entries };
      }),
    )
unfolding file_loop
file_loop-listed rec [] written entries store none_there = rw (append-nil written) refl
file_loop-listed rec (b ∷ bs) written entries store (plain, none_there) =
    rw
      (
        plain,
        file_loop-listed rec bs (written ++ chunk_of b.chunk) entries store none_there,
        append_assoc written (chunk_of b.chunk) (content_of bs),
      )
      refl

chunk_buffers-NoBlocks : (cs : List Bytes) → NoBlocks (chunk_buffers cs)
chunk_buffers-NoBlocks [] = tt
chunk_buffers-NoBlocks (c ∷ cs) = (refl, chunk_buffers-NoBlocks cs)

content_of-chunk_buffers : (cs : List Bytes) → content_of (chunk_buffers cs) ≡ glued cs
content_of-chunk_buffers [] = refl
content_of-chunk_buffers (c ∷ cs) = ap (λ t. c ++ t) (content_of-chunk_buffers cs)

module _ (env : Environment) (serialize : Block → Bytes) (wbp_fuel : ℕ) where
  -- Where the iterator yields no block, one file is kept.
  save_to_dir-listed :
      (input bs rest : List Buffer) (store : Store)
      → trace_of (feed_of env serialize wbp_fuel input) ≡ listed bs
      → rest_over (feed_of env serialize wbp_fuel input) ≡ rest
      → NoBlocks bs
      → save_to_dir env serialize wbp_fuel input store ≡ (store, ok (file (content_of bs), rest))
  unfolding save_to_dir save_parts save_chunks_to_file find_part
  save_to_dir-listed input bs rest store yielded left none_there =
      rw (yielded, file_loop-listed _ bs [] (num 1 ∷ []) store none_there, left) refl

  feed-chunks :
      (cs : List Bytes) (fuel : ℕ) (rest : List Buffer)
      → length cs < fuel
      → (trace_of (
            feed_iterator env.hash_type fuel false []
              (chunk_buffers cs ++ (separator_buffer ∷ rest)))
          ≡ listed (chunk_buffers cs))
        × (rest_over (
              feed_iterator env.hash_type fuel false []
                (chunk_buffers cs ++ (separator_buffer ∷ rest)))
            ≡ rest)
  unfolding feed_iterator
  feed-chunks cs zero rest h = absurd (omega (arith, h))
  feed-chunks [] (suc fuel) rest h = (refl, refl)
  feed-chunks (c ∷ cs) (suc fuel) rest h =
      let (yielded, left) = feed-chunks cs fuel rest (omega (arith, h)) in
      (ap (λ t. next (record empty_buffer { chunk = some c }) t) yielded, left)

  -- On disk.
  pub save_to_dir-Framed :
      (index : ℕ) (bytes : Bytes) (out rest : List Buffer) (store : Store)
      → Framed index bytes out
      → save_to_dir env serialize wbp_fuel (out ++ rest) store ≡ (store, ok (file bytes, rest))
  unfolding feed_iterator
  save_to_dir-Framed index bytes _ rest store whole =
      save_to_dir-listed _ (whole_buffer index bytes ∷ []) rest store refl refl (refl, tt)
      ∙ rw (append-nil bytes) refl
  save_to_dir-Framed index bytes _ rest store (in_chunks cs same) =
      let (yielded, left) =
        feed-chunks cs (suc (length (chunk_buffers cs ++ (separator_buffer ∷ rest)))) rest (
          omega (
            arith,
            length-append (chunk_buffers cs) (separator_buffer ∷ rest),
            length-chunk_buffers cs,
          )) in
      rw (append_assoc (chunk_buffers cs) (separator_buffer ∷ []) rest) (
        save_to_dir-listed _ (chunk_buffers cs) rest store yielded left (chunk_buffers-NoBlocks cs)
        ∙ rw (content_of-chunk_buffers cs, same) refl)
