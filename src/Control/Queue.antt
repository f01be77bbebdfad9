-- ===== src/Control/Queue.antt =====
-- The queue of skip requests and its event, where the methods run one after the other.
use bee_rpc_over_grpc_py.Prelude.{
  ◌≡◌, refl, Bool, true, some, List, [], ◌∷◌, contains, bytes_eq_refl, arith,
}
use bee_rpc_over_grpc_py.Varint.{Bytes}
use bee_rpc_over_grpc_py.Wire.{Buffer, nonempty}
use bee_rpc_over_grpc_py.Control.{
  StreamControl, new_control, skip_buffer, request_skip, pending_outbound, next_outbound,
  finish_sending, observe,
}

-- A call of one of the object's methods.
pub data Call : Type 0 where
  request : Bytes → Call
  pending next finish : Call
  see : Buffer → Call

unfoldable pub perform : Bytes → StreamControl → Call → StreamControl
perform hash_type c (request block_id) = (request_skip hash_type c block_id).0
perform hash_type c pending = (pending_outbound c).0
perform hash_type c next = (next_outbound c).0
perform hash_type c finish = finish_sending c
perform hash_type c (see buffer) = (observe hash_type c buffer).0

unfoldable pub perform_all : Bytes → StreamControl → List Call → StreamControl
perform_all hash_type c [] = c
perform_all hash_type c (call ∷ calls) = perform_all hash_type (perform hash_type c call) calls

-- While something is queued the event is set.
pub record IsReady (c : StreamControl) : Type 0 where
  pub ready : nonempty c.outbound ≡ true → c.outbound_ready ≡ true

request-IsReady :
    (hash_type : Bytes) (c : StreamControl) (id : Bytes)
    → IsReady c
    → IsReady (request_skip hash_type c id).0
unfolding request_skip skip_buffer
request-IsReady hash_type c id h = record { ready = λ e. ground (arith, h.ready) }

pending-IsReady : (c : StreamControl) → IsReady c → IsReady (pending_outbound c).0
unfolding pending_outbound
pending-IsReady c h = record { ready = λ e. ground (arith, h.ready) }

next-IsReady : (c : StreamControl) → IsReady c → IsReady (next_outbound c).0
unfolding next_outbound
next-IsReady c h = record { ready = λ e. ground (arith, h.ready) }

see-IsReady :
    (hash_type : Bytes) (c : StreamControl) (b : Buffer)
    → IsReady c
    → IsReady (observe hash_type c b).0
unfolding observe
see-IsReady hash_type c b h = record { ready = λ e. ground (arith, h.ready) }

perform-IsReady :
    (hash_type : Bytes) (c : StreamControl) (call : Call)
    → IsReady c
    → IsReady (perform hash_type c call)
unfolding perform
perform-IsReady hash_type c (request id) h = request-IsReady hash_type c id h
perform-IsReady hash_type c pending h = pending-IsReady c h
perform-IsReady hash_type c next h = next-IsReady c h
perform-IsReady hash_type c finish h = unfold finish_sending in record { ready = λ e. refl }
perform-IsReady hash_type c (see b) h = see-IsReady hash_type c b h

perform_all-IsReady :
    (hash_type : Bytes) (c : StreamControl) (calls : List Call)
    → IsReady c
    → IsReady (perform_all hash_type c calls)
unfolding perform_all
perform_all-IsReady hash_type c [] h = h
perform_all-IsReady hash_type c (call ∷ calls) h =
    perform_all-IsReady hash_type (perform hash_type c call) calls
      (perform-IsReady hash_type c call h)

next_outbound-ready :
    (c : StreamControl) (b : Buffer) (rest : List Buffer)
    → IsReady c
    → c.enabled ≡ true
    → c.outbound ≡ b ∷ rest
    → ((next_outbound c).1 ≡ some b) × ((next_outbound c).0.outbound ≡ rest)
unfolding next_outbound
next_outbound-ready c b rest h on q =
    let awake : c.outbound_ready ≡ true = h.ready (rw q refl) in rw (on, awake, q) (refl, refl)

-- After any calls of its methods, one at a time, on a fresh control: where a request is queued,
-- `next_outbound` does not time out but returns the oldest one, and keeps the others.
pub next_outbound-perform_all :
    (hash_type : Bytes) (on : Bool) (calls : List Call) (b : Buffer) (rest : List Buffer)
    → (perform_all hash_type (new_control on) calls).enabled ≡ true
    → (perform_all hash_type (new_control on) calls).outbound ≡ b ∷ rest
    → ((next_outbound (perform_all hash_type (new_control on) calls)).1 ≡ some b)
      × ((next_outbound (perform_all hash_type (new_control on) calls)).0.outbound ≡ rest)
next_outbound-perform_all hash_type on calls b rest enabled queued =
    next_outbound-ready (perform_all hash_type (new_control on) calls) b rest
      (perform_all-IsReady hash_type (new_control on) calls (record { ready = λ e. cc })) enabled
      queued

contains_self : (id : Bytes) (ids : List Bytes) → contains (id ∷ ids) id ≡ true
unfolding contains
contains_self id ids = rw (bytes_eq_refl id)

-- Asking for the same block again changes nothing, whatever the id and the state of the control.
request_skip_twice :
    (hash_type : Bytes) (c : StreamControl) (id : Bytes)
    → (request_skip hash_type (request_skip hash_type c id).0 id).0
      ≡ (request_skip hash_type c id).0
unfolding request_skip skip_buffer
request_skip_twice hash_type c id = ground (arith, contains_self id c.asked)
