-- ===== src/Sending.antt =====
-- How messages become a stream: `send_file`, `send_message` and `payload` inside
-- `serialize_to_buffer` (src/bee_rpc/client.py), for a stream without a control or with one that is
-- not enabled, on which `skip_requested_blocks` changes nothing. `signal.wait()` changes nothing and is
-- left out; the temporary file of a large message stands as its content.
pub mod RoundTrip
pub mod Setup
pub mod Interleave
pub mod Outbound
mod Contains
mod Runs
use bee_rpc_over_grpc_py.Prelude.{
  ℕ, suc, Bool, true, false, not, ◌&&◌, Option, none, some, List, [], ◌∷◌, length, ltb,
  if◌then◌else◌,
}
use bee_rpc_over_grpc_py.Outcome.{key_error}
use bee_rpc_over_grpc_py.Trace.{Trace, stop, raise, next, ◌then_from◌}
use bee_rpc_over_grpc_py.Varint.{Bytes}
use bee_rpc_over_grpc_py.Wire.{Buffer, empty_buffer}
use bee_rpc_over_grpc_py.Environment.{Environment}
use bee_rpc_over_grpc_py.Store.{Node, file, Store, chunk_size, read_from_registry}

-- A `Dir`, with what stands at its path, or a message, as its bytes and whether it is a protobuf
-- message that contains blocks. The index is that of its type, `none` where it has none.
pub data Outgoing : Type 0 where
  dir_of : Option ℕ → Option Node → Outgoing
  value : Option ℕ → Bytes → Bool → Outgoing

abbrev pub head_buffer : ℕ → Buffer
head_buffer index = record empty_buffer { head = some index }

abbrev pub separator_buffer : Buffer
separator_buffer = record empty_buffer { separator = some true }

module _ (env : Environment) (store : Store) where
  -- The registry form of a file, between the head and the separator.
  unfoldable pub send_file : ℕ → Option Node → Trace Buffer
  unfolding read_from_registry
  send_file index at_path = next (head_buffer index) (
      read_from_registry env store (suc (length store)) at_path
      then_from next separator_buffer stop)

  -- A small message is one buffer; a large one, or one with blocks, is sent like a file.
  unfoldable pub send_message : ℕ → Bytes → Bool → Trace Buffer
  unfolding read_from_registry
  send_message index message_bytes contains_blocks =
      if ltb (length message_bytes) chunk_size && not contains_blocks
      then next
          (record empty_buffer {
            chunk = some message_bytes;
            head = some index;
            separator = some true;
          })
          stop
      else next (head_buffer index) (
          read_from_registry env store (suc (length store)) (some (file message_bytes))
          then_from next separator_buffer stop)

  -- `indices[type(message)]`
  abbrev pub send : Outgoing → Trace Buffer
  send (dir_of none at_path) = raise key_error
  send (dir_of (some index) at_path) = send_file index at_path
  send (value none message_bytes contains_blocks) = raise key_error
  send (value (some index) message_bytes contains_blocks) =
      send_message index message_bytes contains_blocks

  unfoldable pub payload : List Outgoing → Trace Buffer
  unfolding send_file send_message
  payload [] = stop
  payload (m ∷ messages) = send m then_from payload messages
