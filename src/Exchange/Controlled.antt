-- ===== src/Exchange/Controlled.antt =====
-- A client with `block_skip` and a server with a control (src/bee_rpc/client.py, control.py): skip
-- requests travel among the messages. Neither the filter nor the parser asks the control anything about
-- a stream without blocks, which this one is.
use mathlib.Core.Path.{subst}
use bee_rpc_over_grpc_py.Prelude.{ℕ, ◌≡◌, refl, sym, ap, ◌∙◌, Bool, true, List, [], ◌∷◌, ◌++◌, All}
use bee_rpc_over_grpc_py.Outcome.{Result, ok, ok_injective}
use bee_rpc_over_grpc_py.Trace.{drain, drain-then_from}
use bee_rpc_over_grpc_py.Varint.{Bytes}
use bee_rpc_over_grpc_py.Wire.{Block, Buffer}
use bee_rpc_over_grpc_py.Environment.{Environment}
use bee_rpc_over_grpc_py.Store.{Store}
use bee_rpc_over_grpc_py.Driver.{Dict}
use bee_rpc_over_grpc_py.Control.{StreamControl, new_control, reader}
use bee_rpc_over_grpc_py.Sending.{payload, send}
use bee_rpc_over_grpc_py.Sending.RoundTrip.{chunk_buffers}
use bee_rpc_over_grpc_py.Sending.{separator_buffer}
use bee_rpc_over_grpc_py.Sending.Interleave.{Schedule, request_stream}
use bee_rpc_over_grpc_py.Sending.Outbound.{NoSkip}
use bee_rpc_over_grpc_py.Sending.Outbound.OpenDirection.{reader-request_stream}
use bee_rpc_over_grpc_py.Receiving.Setup.{Indices, Modes, prepare}
use bee_rpc_over_grpc_py.Receiving.Loop.{parse_from_buffer}
use bee_rpc_over_grpc_py.Exchange.OneMessage.{Framed, whole, in_chunks}
use bee_rpc_over_grpc_py.Exchange.{
  Letter, outgoing, received_of, IsReceived, form_sent, send-Framed, parse_from_buffer-payload,
}

NoSkip-append : (xs ys : List Buffer) → NoSkip xs → NoSkip ys → NoSkip (xs ++ ys)
NoSkip-append [] ys h k = k
NoSkip-append (x ∷ xs) ys (plain, h) k = (plain, NoSkip-append xs ys h k)

chunk_buffers-NoSkip : (cs : List Bytes) → NoSkip (chunk_buffers cs)
chunk_buffers-NoSkip [] = tt
chunk_buffers-NoSkip (c ∷ cs) = (refl, chunk_buffers-NoSkip cs)

Framed-NoSkip :
    (index : ℕ) (bytes : Bytes) (out : List Buffer) → Framed index bytes out → NoSkip out
Framed-NoSkip index bytes _ whole = (refl, tt)
Framed-NoSkip index bytes _ (in_chunks cs same) = (
  refl,
  NoSkip-append (chunk_buffers cs) (separator_buffer ∷ []) (chunk_buffers-NoSkip cs) (refl, tt),
)

pub payload-NoSkip :
    {M T : Type 0} (env : Environment) (store : Store) (ls : List (Letter M T))
    → (out : List Buffer) × (drain (payload env store (outgoing ls)) ≡ ok out) × NoSkip out
unfolding payload
payload-NoSkip env store [] = ([], refl, tt)
payload-NoSkip env store (l ∷ ls) =
    let (later, drained, plain) = payload-NoSkip env store ls in
    let (out, sent, framed) = send-Framed env store l.form l.index l.bytes in
    (
      out ++ later,
      drain-then_from (send env store (form_sent l.form l.index l.bytes))
          (payload env store (outgoing ls)) out later sent drained,
      NoSkip-append out later (Framed-NoSkip l.index l.bytes out framed) plain,
    )

module _ (env : Environment) (serialize : Block → Bytes) (wbp_fuel : ℕ) {M T : Type 0}
    (decode : T → Bytes → Result M) (is_empty_type : T → Bool) (empty_message : M)
    (store : Store) where
  -- A client with a fresh control sends messages and plain files, and whatever its other threads call on
  -- the control between the steps and in the rounds that hold the direction open: nothing is raised, and
  -- a server of the client's hash type that reads the stream through an enabled control and is set up
  -- for the messages yields what it gets of each, as it does of a stream without a control.
  pub parse_from_buffer-request_stream :
      (env' : Environment) (store' : Store) (is_message : T → Bool) (bytes_type : T)
      (given : Indices T) (given_modes : Modes) (indices : Dict T) (modes : Dict Bool)
      (ls : List (Letter M T)) (hash_type : Bytes) (schedule rounds : Schedule)
      (server : StreamControl)
      → prepare is_message bytes_type given given_modes ≡ ok (indices, modes)
      → All (IsReceived decode is_empty_type indices modes) ls
      → server.enabled ≡ true
      → (out : List Buffer) × (drain
            (request_stream hash_type
              (new_control true)
              schedule
              rounds
              (payload env' store' (outgoing ls))).0
          ≡ ok out)
        × (parse_from_buffer env serialize wbp_fuel decode is_empty_type empty_message is_message
              bytes_type given given_modes
              (reader hash_type server out).1
              store
            ≡ (received_of ls, store))
  parse_from_buffer-request_stream env' store' is_message bytes_type given given_modes indices modes
        ls hash_type schedule rounds server prepared good on =
      let (bs, sent, received) =
        parse_from_buffer-payload env serialize wbp_fuel decode is_empty_type empty_message store
          env' store' is_message bytes_type given given_modes indices modes ls prepared good in
      let (bs', sent', plain') = payload-NoSkip env' store' ls in
      let same : bs' ≡ bs = ok_injective (sym sent' ∙ sent) in
      let (out, drained, passed) =
        reader-request_stream hash_type schedule rounds (payload env' store' (outgoing ls)) bs
          server sent (subst (λ x. NoSkip x) same plain') on in
      (
        out,
        drained,
        ap
              (λ x.
                parse_from_buffer env serialize wbp_fuel decode is_empty_type empty_message
                  is_message bytes_type given given_modes x store)
              passed
            ∙ received,
      )
