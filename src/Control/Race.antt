-- ===== src/Control/Race.antt =====
-- `pending_outbound` clears the event after it has let go of the lock, so a request that another
-- thread queues in between loses its wake-up.
use bee_rpc_over_grpc_py.Prelude.{◌≡◌, true, false, none, some, [], ◌∷◌, contains, arith}
use bee_rpc_over_grpc_py.Varint.{Bytes}
use bee_rpc_over_grpc_py.Wire.{Buffer, nonempty}
use bee_rpc_over_grpc_py.Control.{
  StreamControl, skip_buffer, request_skip, pending_locked, pending_unlocked, next_outbound,
}

-- `pending_outbound` of the sender's thread, in its two steps, with a whole `request_skip` of the
-- parser's thread between them.
abbrev pub interleaved : Bytes → StreamControl → Bytes → StreamControl
interleaved hash_type c id =
    let (c', out, clears) = pending_locked c in
    pending_unlocked clears (request_skip hash_type c' id).0

-- In that interleaving, for each enabled control with something queued and each well-formed id that
-- was not asked for before, the new request stays queued, and `next_outbound` times out each time it
-- is called: it returns nothing and changes nothing.
pub interleaved_lost_wakeup :
    (hash_type : Bytes) (c : StreamControl) (id : Bytes) (request : Buffer)
    → c.enabled ≡ true
    → nonempty c.outbound ≡ true
    → nonempty id ≡ true
    → contains c.asked id ≡ false
    → skip_buffer hash_type id ≡ some request
    → ((interleaved hash_type c id).outbound ≡ request ∷ [])
      × (next_outbound (interleaved hash_type c id) ≡ (interleaved hash_type c id, none))
unfolding request_skip pending_locked pending_unlocked next_outbound
interleaved_lost_wakeup hash_type c id request on queued named new made = ground arith
