-- ===== src/Exchange/Defaults.antt =====
-- `serialize_to_buffer` without indices, and `parse_from_buffer` with the type of the messages
-- (src/bee_rpc/client.py): the index 1 is made up on both sides.
use bee_rpc_over_grpc_py.Prelude.{
  ◌≡◌, ◌≢◌, refl, ap, ◌∙◌, Bool, true, false, some, List, [], ◌∷◌, All, if◌then◌else◌, ℕ,
}
use bee_rpc_over_grpc_py.Outcome.{Result, ok}
use bee_rpc_over_grpc_py.Trace.{Trace, stop, next, drain}
use bee_rpc_over_grpc_py.Varint.{Bytes}
use bee_rpc_over_grpc_py.Wire.{Block, Buffer}
use bee_rpc_over_grpc_py.Environment.{Environment}
use bee_rpc_over_grpc_py.Store.{file, Store}
use bee_rpc_over_grpc_py.Driver.{get_key}
use bee_rpc_over_grpc_py.Sending.Setup.{
  Item, value_item, iterator, prepare_sending, when_prepared, serialize_to_buffer, to_outgoing,
}
use bee_rpc_over_grpc_py.Receiving.Setup.{no_indices, one_type, one_mode, prepare}
use bee_rpc_over_grpc_py.Receiving.Loop.{Parsed, in_memory, on_disk, parse_from_buffer}
use bee_rpc_over_grpc_py.Exchange.{
  Letter, message_with, outgoing, received_of, IsReceived, parse_from_buffer-payload,
}

-- A message, its bytes, and whether it contains blocks.
pub record Sample (M : Type 0) : Type 0 where
  pub message : M
  pub bytes : Bytes
  pub contains_blocks : Bool

prepare-type :
    {T : Type 0} (type : T) (is_message : T → Bool) (bytes_type : T) (mode : Bool)
    → is_message type ≡ true
    → prepare is_message bytes_type (one_type type) (one_mode mode)
      ≡ ok ((1, type) ∷ (0, bytes_type) ∷ [], (1, mode) ∷ (0, mode) ∷ [])
unfolding prepare
prepare-type type is_message bytes_type mode message = rw message refl

module _ {M T : Type 0} (type : T) where
  abbrev pub items : List (Sample M) → List (Item T)
  items [] = []
  items (x ∷ xs) = value_item type x.bytes x.contains_blocks ∷ items xs

  -- What a message becomes, by the mode of the receiver.
  abbrev got : Bool → Sample M → Parsed M T
  got true x = in_memory x.message
  got false x = on_disk (file x.bytes) type

  abbrev pub all_got : Bool → List (Sample M) → Trace (Parsed M T)
  all_got mode [] = stop
  all_got mode (x ∷ xs) = next (got mode x) (all_got mode xs)

  abbrev pub letter : Bool → Sample M → Letter M T
  letter mode x = record {
    form = message_with x.contains_blocks;
    type = type;
    index = 1;
    bytes = x.bytes;
    received = some (got mode x);
  }

  abbrev pub letters : Bool → List (Sample M) → List (Letter M T)
  letters mode [] = []
  letters mode (x ∷ xs) = letter mode x ∷ letters mode xs

  received_of-letters :
      (mode : Bool) (xs : List (Sample M)) → received_of (letters mode xs) ≡ all_got mode xs
  received_of-letters mode [] = refl
  received_of-letters mode (x ∷ xs) = ap (λ t. next (got mode x) t) (received_of-letters mode xs)

  module _ (decode : T → Bytes → Result M) where
    abbrev pub IsDecodable : Sample M → Type 0
    IsDecodable x = (x.bytes ≢ []) × (decode type x.bytes ≡ ok x.message)

    module _ (is_empty_type : T → Bool) (bytes_type : T) where
      letters-IsReceived :
          (mode : Bool) (xs : List (Sample M))
          → All IsDecodable xs
          → All
              (IsReceived decode is_empty_type
                ((1, type) ∷ (0, bytes_type) ∷ [])
                ((1, mode) ∷ (0, mode) ∷ []))
              (letters mode xs)
      unfolding get_key
      letters-IsReceived mode [] good = tt
      letters-IsReceived true (x ∷ xs) ((some_byte, decodes), good) =
          ((refl, (refl, some_byte, decodes)), letters-IsReceived true xs good)
      letters-IsReceived false (x ∷ xs) ((some_byte, decodes), good) =
          ((refl, (refl, refl, refl)), letters-IsReceived false xs good)

  module _ (same_type : T → T → Bool) (is_message : T → Bool) (bytes_type empty_type : T)
      (same : same_type type type ≡ true) (message : is_message type ≡ true) where
    to_outgoing-items :
        (mode : Bool) (xs : List (Sample M))
        → to_outgoing same_type is_message bytes_type empty_type
            ((0, bytes_type) ∷ (1, type) ∷ [])
            (items xs)
          ≡ outgoing (letters mode xs)
    unfolding prepare_sending
    to_outgoing-items mode [] = refl
    to_outgoing-items mode (x ∷ xs) = rw (same, to_outgoing-items mode xs) refl

    pub prepare_sending-items :
        (mode : Bool) (x : Sample M) (xs : List (Sample M))
        → prepare_sending same_type is_message bytes_type empty_type no_indices
            (iterator (items (x ∷ xs)))
          ≡ ok (outgoing (letters mode (x ∷ xs)))
    unfolding prepare_sending
    prepare_sending-items mode x xs =
        ap
          (λ b. ok (
            to_outgoing same_type is_message bytes_type empty_type
              (if b then (0, bytes_type) ∷ (1, type) ∷ [] else (0, bytes_type) ∷ [])
              (items (x ∷ xs))))
          message
        ∙ ap ok (to_outgoing-items mode (x ∷ xs))

    -- An iterator of messages of one type, one at least and each of at least one byte, that is sent
    -- without indices and without a control: nothing is raised, and a node that parses with this type,
    -- and can decode each of them, yields them all, in their order: the messages where it parses in
    -- memory, and files with their bytes where it writes to disk.
    pub parse_from_buffer-serialize_to_buffer :
        (env env' : Environment) (store store' : Store) (serialize : Block → Bytes) (wbp_fuel : ℕ)
        (decode : T → Bytes → Result M) (is_empty_type : T → Bool) (empty_message : M) (mode : Bool)
        (x : Sample M) (xs : List (Sample M))
        → All (IsDecodable decode) (x ∷ xs)
        → (out : List Buffer) × (drain (
              serialize_to_buffer same_type is_message bytes_type empty_type env store no_indices
                (iterator (items (x ∷ xs))))
            ≡ ok out)
          × (parse_from_buffer env' serialize wbp_fuel decode is_empty_type empty_message is_message
                bytes_type
                (one_type type)
                (one_mode mode)
                out
                store'
              ≡ (all_got mode (x ∷ xs), store'))
    unfolding serialize_to_buffer
    parse_from_buffer-serialize_to_buffer env env' store store' serialize wbp_fuel decode
          is_empty_type empty_message mode x xs good =
        let (out, drained, received) =
          parse_from_buffer-payload env' serialize wbp_fuel decode is_empty_type empty_message
            store' env store is_message bytes_type (one_type type) (one_mode mode)
            ((1, type) ∷ (0, bytes_type) ∷ []) ((1, mode) ∷ (0, mode) ∷ []) (letters mode (x ∷ xs))
            (prepare-type type is_message bytes_type mode message)
            (letters-IsReceived decode is_empty_type bytes_type mode (x ∷ xs) good) in
        (
          out,
          ap (λ r. drain (when_prepared same_type is_message bytes_type empty_type env store r))
                (prepare_sending-items mode x xs)
              ∙ drained,
          rw⁻¹ (received_of-letters mode (x ∷ xs)) received,
        )
