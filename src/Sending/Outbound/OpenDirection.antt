-- ===== src/Sending/Outbound/OpenDirection.antt =====
-- `request_stream` of `client_grpc` (src/bee_rpc/client.py), whose direction stays open behind the payload.
use bee_rpc_over_grpc_py.Prelude.{◌≡◌, refl, true, Option, none, some, List, [], ◌∷◌, ◌++◌}
use bee_rpc_over_grpc_py.Outcome.{ok}
use bee_rpc_over_grpc_py.Trace.{drain-next, Trace, stop, raise, next, drain}
use bee_rpc_over_grpc_py.Varint.{Bytes}
use bee_rpc_over_grpc_py.Wire.{Buffer}
use bee_rpc_over_grpc_py.Control.{StreamControl, new_control, next_outbound, reader}
use bee_rpc_over_grpc_py.Control.Queue.{next, perform_all}
use bee_rpc_over_grpc_py.Control.Outgoing.{
  IsRequest, AllRequests, IsQueue, next_outbound-IsQueue, next_outbound-IsRequest,
  perform_all-IsQueue, new_control-IsQueue,
}
use bee_rpc_over_grpc_py.Sending.Interleave.{
  Schedule, Controlled, yield_before, interleave, with_control, hold_open, request_stream,
  forwarded, then_hold,
}
use bee_rpc_over_grpc_py.Sending.Outbound.{NoSkip, Passes-behind, interleave-ComesThrough}

module _ (hash_type : Bytes) where
  -- The loop that holds the direction open forwards skip requests alone.
  hold_open-AllRequests :
      (c : StreamControl) (rounds : Schedule)
      → IsQueue hash_type c
      → (out : List Buffer) × (drain (hold_open hash_type c rounds).0 ≡ ok out)
        × AllRequests hash_type out
  unfolding hold_open
  hold_open-AllRequests c [] q = ([], refl, tt)
  hold_open-AllRequests c (calls ∷ rounds) q =
      let q' = perform_all-IsQueue hash_type c calls q in
      let c' = perform_all hash_type c calls in
      let (held, drained, requests) =
        hold_open-AllRequests (next_outbound c').0 rounds (next_outbound-IsQueue hash_type c' q') in
      with_forwarded (next_outbound c').1 held (hold_open hash_type (next_outbound c').0 rounds)
        drained requests (λ b h. next_outbound-IsRequest hash_type c' b q' h)
    where
      with_forwarded :
          (o : Option Buffer) (held : List Buffer) (later : Controlled)
          → drain later.0 ≡ ok held
          → AllRequests hash_type held
          → ((b : Buffer) → o ≡ some b → IsRequest hash_type b)
          → (out : List Buffer) × (drain (yield_before (forwarded hash_type o) later).0 ≡ ok out)
            × AllRequests hash_type out
      with_forwarded none held later drained requests one = (held, drained, requests)
      with_forwarded (some b) held later drained requests one =
          (b ∷ held, rw drained refl, (one b refl, requests))

  drain-then_hold :
      (rounds : Schedule) (t : Trace Buffer) (c : StreamControl) (xs held : List Buffer)
      → drain t ≡ ok xs
      → drain (hold_open hash_type c rounds).0 ≡ ok held
      → drain (then_hold hash_type rounds (t, c)).0 ≡ ok (xs ++ held)
  drain-then_hold rounds stop c [] held h k = k
  drain-then_hold rounds stop c (x ∷ xs) held h k = cc
  drain-then_hold rounds (raise e) c xs held h k = cc
  drain-then_hold rounds (next b t) c xs held h k =
      let (tail, drained, same) = drain-next b t xs h in
      rw (same, drain-then_hold rounds t c tail held drained k) refl

  -- On a fresh control, and whatever other threads call on it between the steps and in the rounds that
  -- hold the direction open: where the payload ends without an exception and no buffer of it has the
  -- field `skip`, `request_stream` ends without one, and `reader` of an enabled peer passes on just the
  -- payload, all of it and in its order.
  pub reader-request_stream :
      (schedule rounds : Schedule) (t : Trace Buffer) (bs : List Buffer) (peer : StreamControl)
      → drain t ≡ ok bs
      → NoSkip bs
      → peer.enabled ≡ true
      → (out : List Buffer) × (drain
            (request_stream hash_type (new_control true) schedule rounds t).0
          ≡ ok out)
        × ((reader hash_type peer out).1 ≡ bs)
  unfolding request_stream with_control
  reader-request_stream schedule rounds t bs peer h plain on =
      let ((out, drained, passes), q, emptied, done) =
        interleave-ComesThrough hash_type (new_control true) schedule t bs
          (new_control-IsQueue hash_type) h plain in
      let (t', c') = interleave hash_type (new_control true) schedule t in
      let (held, drained', requests) = hold_open-AllRequests c' rounds q in
      (
        out ++ held,
        drain-then_hold rounds t' c' out held drained drained',
        Passes-behind hash_type out held bs requests passes peer on,
      )
