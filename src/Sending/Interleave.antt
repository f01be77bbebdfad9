-- ===== src/Sending/Interleave.antt =====
-- The end of `serialize_to_buffer` with an enabled control, and `request_stream` of `client_grpc`
-- (src/bee_rpc/client.py). `payload` is the stream that the function of this name yields; how it heeds
-- the peer's requests is modelled with the filter. Before each step stand the calls that other threads
-- make on the control; a method is one step.
use bee_rpc_over_grpc_py.Prelude.{Option, none, some, List, [], ◌∷◌, ◌++◌, if◌then◌else◌}
use bee_rpc_over_grpc_py.Trace.{Trace, stop, raise, next}
use bee_rpc_over_grpc_py.Varint.{Bytes}
use bee_rpc_over_grpc_py.Wire.{Buffer}
use bee_rpc_over_grpc_py.Control.{StreamControl, pending_outbound, next_outbound, finish_sending}
use bee_rpc_over_grpc_py.Control.Queue.{Call, perform_all}

-- The calls before each step, of which `finish_sending` is the last; where the list ends there are no
-- more.
abbrev pub Schedule : Type 0
Schedule = List (List Call)

abbrev pub now : Schedule → List Call
now [] = []
now (calls ∷ later) = calls

abbrev pub after_now : Schedule → Schedule
after_now [] = []
after_now (calls ∷ later) = later

-- What is yielded, and the control behind it.
abbrev pub Controlled : Type 0
Controlled = Trace Buffer × StreamControl

abbrev pub yield_all : List Buffer → Trace Buffer → Trace Buffer
yield_all [] t = t
yield_all (b ∷ bs) t = next b (yield_all bs t)

abbrev pub yield_before : List Buffer → Controlled → Controlled
yield_before bs (t, c) = (yield_all bs t, c)

module _ (hash_type : Bytes) where
  -- `control.pending_outbound()` behind the calls of the other threads.
  abbrev pub take_pending : StreamControl → Schedule → StreamControl × List Buffer
  take_pending c schedule = pending_outbound (perform_all hash_type c (now schedule))

  unfoldable pub interleave : StreamControl → Schedule → Trace Buffer → Controlled
  unfolding pending_outbound finish_sending perform_all
  interleave c schedule stop =
      let (c', outbound) = take_pending c schedule in
      let last_calls = now (after_now schedule) in
      (yield_all outbound stop, finish_sending (perform_all hash_type c' last_calls))
  interleave c schedule (raise e) =
      (raise e, finish_sending (perform_all hash_type c (now schedule)))
  interleave c schedule (next buffer payload) =
      let (c', outbound) = take_pending c schedule in
      yield_before (outbound ++ (buffer ∷ [])) (interleave c' (after_now schedule) payload)

  unfoldable pub with_control : StreamControl → Schedule → Trace Buffer → Controlled
  unfolding interleave
  with_control c schedule payload =
      if c.enabled then interleave c schedule payload else (payload, c)

  abbrev pub forwarded : Option Buffer → List Buffer
  forwarded none = []
  forwarded (some outbound) = outbound ∷ []

  -- The loop that holds the direction open, one element for each round, until the response is done.
  unfoldable pub hold_open : StreamControl → Schedule → Controlled
  unfolding next_outbound perform_all
  hold_open c [] = (stop, c)
  hold_open c (calls ∷ rounds) =
      let (c', outbound) = next_outbound (perform_all hash_type c calls) in
      yield_before (forwarded outbound) (hold_open c' rounds)

  -- The loop is not reached behind an exception.
  abbrev pub then_hold : Schedule → Controlled → Controlled
  then_hold rounds (stop, c) = hold_open c rounds
  then_hold rounds (raise e, c) = (raise e, c)
  then_hold rounds (next b t, c) = yield_before (b ∷ []) (then_hold rounds (t, c))

  unfoldable pub request_stream : StreamControl → Schedule → Schedule → Trace Buffer → Controlled
  unfolding with_control hold_open
  request_stream c schedule rounds payload = then_hold rounds (with_control c schedule payload)
