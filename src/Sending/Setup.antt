-- ===== src/Sending/Setup.antt =====
-- The arguments of `serialize_to_buffer` (src/bee_rpc/client.py), and the whole of it on a stream
-- without a control. A type of messages is a value of `T`; `same_type` compares two.
use bee_rpc_over_grpc_py.Prelude.{
  ℕ, Bool, false, not, Option, none, some, List, [], ◌∷◌, length, ◌==◌, if◌then◌else◌,
}
use bee_rpc_over_grpc_py.Outcome.{Result, ok, err, plain, type_error, ◌>>=◌}
use bee_rpc_over_grpc_py.Trace.{Trace, raise}
use bee_rpc_over_grpc_py.Varint.{Bytes}
use bee_rpc_over_grpc_py.Wire.{Buffer}
use bee_rpc_over_grpc_py.Environment.{Environment}
use bee_rpc_over_grpc_py.Store.{Node, Store}
use bee_rpc_over_grpc_py.Driver.{Dict, set_key}
use bee_rpc_over_grpc_py.Receiving.Setup.{Indices, no_indices, one_type, by_index}
use bee_rpc_over_grpc_py.Sending.{Outgoing, dir_of, value, payload}

-- A `Dir`, with what stands at its path and its type, or a message, with its type, its bytes and
-- whether it is a protobuf message that contains blocks.
pub data Item (T : Type 0) : Type 0 where
  dir_item : Option Node → T → Item T
  value_item : T → Bytes → Bool → Item T

-- What `message_iterator` is: nothing or something empty, one message, an iterator, or something that
-- has `__iter__` but is no iterator, such as a list or bytes.
pub data Messages (T : Type 0) : Type 0 where
  not_given : Messages T
  single : Item T → Messages T
  iterator : List (Item T) → Messages T
  iterable : List (Item T) → Messages T

-- `indices[t]` in the dictionary from types to indices: the later entry of a type has won.
unfoldable pub index_of_type : {T : Type 0} → (T → T → Bool) → Dict T → T → Option ℕ
index_of_type same_type [] t = none
index_of_type same_type ((k, t') ∷ d) t =
    or_first (index_of_type same_type d t) (if same_type t' t then some k else none)
  where
    or_first : Option ℕ → Option ℕ → Option ℕ
    or_first (some i) o = some i
    or_first none o = o

module _ {T : Type 0} (same_type : T → T → Bool) (is_message : T → Bool)
    (bytes_type empty_type : T) where
  abbrev items_of : Messages T → List (Item T)
  items_of not_given = value_item empty_type [] false ∷ []
  items_of (single m) = m ∷ []
  items_of (iterator ms) = ms
  items_of (iterable ms) = ms

  -- `next(message_iterator)`. Its StopIteration leaves the generator as a RuntimeError, here `plain`.
  abbrev first_of : List (Item T) → Result (Item T)
  first_of [] = err plain
  first_of (m ∷ ms) = ok m

  abbrev take_first : Messages T → Result (Item T)
  take_first (iterable ms) = err type_error
  take_first not_given = ok (value_item empty_type [] false)
  take_first (single m) = ok m
  take_first (iterator ms) = first_of ms

  -- The index 1 where none was given: the type of the first message, unless that is bytes.
  abbrev add_first : Dict T → Item T → Dict T
  add_first d (dir_item at_path t) = if not (same_type t bytes_type) then set_key d 1 t else d
  add_first d (value_item t bytes contains_blocks) = if is_message t then set_key d 1 t else d

  abbrev sent_indices : Indices T → Result (Dict T)
  sent_indices no_indices = ok []
  sent_indices (one_type t) = if is_message t then ok ((1, t) ∷ []) else err plain
  sent_indices (by_index d) = ok d

  abbrev completed : Messages T → Dict T → Result (Dict T)
  completed messages d =
      if length d == 1 then (do first ← take_first messages; ok (add_first d first)) else ok d

  abbrev pub to_outgoing : Dict T → List (Item T) → List Outgoing
  to_outgoing d [] = []
  to_outgoing d (dir_item at_path t ∷ ms) =
      dir_of (index_of_type same_type d t) at_path ∷ to_outgoing d ms
  to_outgoing d (value_item t bytes contains_blocks ∷ ms) =
      value (index_of_type same_type d t) bytes contains_blocks ∷ to_outgoing d ms

  unfoldable pub prepare_sending : Indices T → Messages T → Result (List Outgoing)
  unfolding set_key index_of_type
  prepare_sending indices messages = do
    given ← sent_indices indices
    all_indices ← completed messages (set_key given 0 bytes_type)
    ok (to_outgoing all_indices (items_of messages))

  abbrev pub when_prepared : Environment → Store → Result (List Outgoing) → Trace Buffer
  when_prepared env store (err e) = raise e
  when_prepared env store (ok messages) = payload env store messages

  unfoldable pub serialize_to_buffer : Environment → Store → Indices T → Messages T → Trace Buffer
  unfolding prepare_sending payload
  serialize_to_buffer env store indices messages =
      when_prepared env store (prepare_sending indices messages)
