-- ===== src/Control.antt =====
-- Reverse-direction stream control (src/bee_rpc/control.py): `skip_buffer`, `skipped_block_id`,
-- `_is_inert` and the class `StreamControl`. A method is a function from the object's state to its
-- next state and its result; a method body under the lock is one atomic step. The node's
-- `Enviroment.hash_type` is the first argument of what reads it.
pub mod Queue
pub mod Outgoing
pub mod Passing
pub mod Reader
pub mod Race
mod Runs
use bee_rpc_over_grpc_py.Prelude.{
  ℕ, Bool, true, false, not, ◌&&◌, ◌||◌, Option, none, some, List, [], ◌∷◌, ◌++◌, contains,
  map_option, if◌then◌else◌,
}
use bee_rpc_over_grpc_py.Outcome.{Result, ok, err, value_error}
use bee_rpc_over_grpc_py.Varint.{Bytes}
use bee_rpc_over_grpc_py.Hex.{hex, from_hex}
use bee_rpc_over_grpc_py.Wire.{Hash, Block, Buffer, empty_buffer, has, is_set, chunk_of, nonempty}
use bee_rpc_over_grpc_py.Pointer.{pointer_of_bytes, hash_of_type}

-- `none` is the ValueError of `bytes.fromhex`.
unfoldable pub skip_buffer : Bytes → Bytes → Option Buffer
unfolding pointer_of_bytes
skip_buffer hash_type block_id =
    map_option
      (λ value. record empty_buffer {
        skip = some (pointer_of_bytes hash_type value false);
        chunk = some [];
      })
      (from_hex block_id)

-- The id under the node's hash type in the field `skip`, if that is there.
abbrev pub skip_id : Bytes → Option Block → Option Bytes
skip_id hash_type none = none
skip_id hash_type (some block) = hash_of_type hash_type true block.hashes

unfoldable pub skipped_block_id : Bytes → Buffer → Option Bytes
unfolding hash_of_type
skipped_block_id hash_type buffer = skip_id hash_type buffer.skip

unfoldable pub is_inert : Buffer → Bool
is_inert buffer = not (
    has buffer.head
    || (has buffer.block
        || (is_set buffer.separator || (is_set buffer.signal || nonempty (chunk_of buffer.chunk)))))

-- The peer's requests, ours, the queue for the opposite direction, and the two events.
pub record StreamControl : Type 0 where
  pub enabled : Bool
  pub skip : List Bytes
  pub asked : List Bytes
  pub outbound : List Buffer
  pub outbound_ready : Bool
  pub sending_done : Bool

abbrev pub new_control : Bool → StreamControl
new_control enabled = record {
  enabled = enabled;
  skip = [];
  asked = [];
  outbound = [];
  outbound_ready = false;
  sending_done = false;
}

-- `request_skip` under the lock; `ok true` says that it goes on to set the event. A malformed id has
-- been added to `_asked` when `skip_buffer` raises.
abbrev pub enqueue : StreamControl → Bytes → Option Buffer → StreamControl × Result Bool
enqueue c block_id none = (record c { asked = block_id ∷ c.asked }, err value_error)
enqueue c block_id (some buffer) =
    (record c { asked = block_id ∷ c.asked; outbound = c.outbound ++ (buffer ∷ []) }, ok true)

unfoldable pub request_locked : Bytes → StreamControl → Bytes → StreamControl × Result Bool
unfolding skip_buffer
request_locked hash_type c block_id =
    if not c.enabled || not (nonempty block_id)
    then (c, ok false)
    else if contains c.asked block_id
    then (c, ok false)
    else enqueue c block_id (skip_buffer hash_type block_id)

abbrev pub set_ready : Bool → StreamControl → StreamControl
set_ready b c = record c { outbound_ready = b }

abbrev pub after_lock : StreamControl → Result Bool → StreamControl × Result (Unit {0})
after_lock c (ok true) = (set_ready true c, ok tt)
after_lock c (ok false) = (c, ok tt)
after_lock c (err e) = (c, err e)

unfoldable pub request_skip : Bytes → StreamControl → Bytes → StreamControl × Result (Unit {0})
unfolding request_locked
request_skip hash_type c block_id =
    let (c', queued) = request_locked hash_type c block_id in after_lock c' queued

-- The argument is `None` or an id.
unfoldable pub should_skip : StreamControl → Option Bytes → Bool
should_skip c none = false
should_skip c (some block_id) =
    if not c.enabled || not (nonempty block_id) then false else contains c.skip block_id

-- `pending_outbound` under the lock: it takes all that is queued. The Boolean says that it goes on
-- to clear the event.
unfoldable pub pending_locked : StreamControl → StreamControl × List Buffer × Bool
pending_locked c =
    if c.enabled && nonempty c.outbound
    then (record c { outbound = [] }, c.outbound, true)
    else (c, [], false)

-- The rest of `pending_outbound`, outside of the lock, with what it got under it.
unfoldable pub pending_unlocked : Bool → StreamControl → StreamControl
pending_unlocked clears c = if clears then set_ready false c else c

unfoldable pub pending_outbound : StreamControl → StreamControl × List Buffer
unfolding pending_locked pending_unlocked
pending_outbound c = let (c', out, clears) = pending_locked c in (pending_unlocked clears c', out)

-- `next_outbound` once its wait has ended; the wait succeeds exactly when the event is set, so a
-- timeout is the case of a clear event.
abbrev pub pop_outbound : StreamControl → List Buffer → StreamControl × Option Buffer
pop_outbound c [] = (set_ready false c, none)
pop_outbound c (buffer ∷ rest) =
    (record c { outbound = rest; outbound_ready = nonempty rest && c.outbound_ready }, some buffer)

unfoldable pub next_outbound : StreamControl → StreamControl × Option Buffer
next_outbound c = if c.enabled && c.outbound_ready then pop_outbound c c.outbound else (c, none)

unfoldable pub finish_sending : StreamControl → StreamControl
finish_sending c = record c { sending_done = true; outbound_ready = true }

unfoldable pub sending_finished : StreamControl → Bool
sending_finished c = c.sending_done

abbrev pub add_skip : StreamControl → Option Bytes → StreamControl × Bool
add_skip c none = (c, false)
add_skip c (some block_id) = (record c { skip = block_id ∷ c.skip }, true)

unfoldable pub observe : Bytes → StreamControl → Buffer → StreamControl × Bool
unfolding skipped_block_id
observe hash_type c buffer =
    if c.enabled then add_skip c (skipped_block_id hash_type buffer) else (c, false)

abbrev pub clear_skip : Buffer → Buffer
clear_skip b = record b { skip = none }

-- One buffer of `reader`: what it yields.
abbrev pub forward : Bool → Buffer → List Buffer
forward seen buffer =
    if seen then (if is_inert buffer then [] else clear_skip buffer ∷ []) else buffer ∷ []

unfoldable pub reader : Bytes → StreamControl → List Buffer → StreamControl × List Buffer
reader hash_type c [] = (c, [])
reader hash_type c (buffer ∷ rest) =
    let (c', seen) = observe hash_type c buffer in
    let (c'', out) = reader hash_type c' rest in
    (c'', if c.enabled then forward seen buffer ++ out else buffer ∷ out)

-- The thread of `watch`: it reads on for the skip requests alone.
unfoldable pub watch : Bytes → StreamControl → List Buffer → StreamControl
watch hash_type c [] = c
watch hash_type c (buffer ∷ rest) = watch hash_type (observe hash_type c buffer).0 rest
