-- ===== src/Client/Call.antt =====
-- A call: the client's messages reach the server, and the server's answers reach the client.
use bee_rpc_over_grpc_py.Prelude.{ℕ, ◌≡◌, sym, ap, ◌∙◌, Bool, true, some, List, ◌∷◌, All}
use bee_rpc_over_grpc_py.Outcome.{Result, ok, ok_injective}
use bee_rpc_over_grpc_py.Trace.{Trace, drain}
use bee_rpc_over_grpc_py.Varint.{Bytes}
use bee_rpc_over_grpc_py.Wire.{Block, Buffer}
use bee_rpc_over_grpc_py.Environment.{Environment}
use bee_rpc_over_grpc_py.Store.{Store}
use bee_rpc_over_grpc_py.Sending.Setup.{iterator, serialize_to_buffer}
use bee_rpc_over_grpc_py.Receiving.Setup.{no_indices, one_type, one_mode}
use bee_rpc_over_grpc_py.Receiving.Loop.{parse_from_buffer}
use bee_rpc_over_grpc_py.Exchange.Defaults.{
  Sample, items, all_got, IsDecodable, parse_from_buffer-serialize_to_buffer,
}
use bee_rpc_over_grpc_py.Client.{client_grpc}

-- A type of messages, that equals itself.
abbrev pub IsMessageType : {T : Type 0} → (T → T → Bool) → (T → Bool) → T → Type 0
IsMessageType same_type is_message t = (same_type t t ≡ true) × (is_message t ≡ true)

module _ {M T : Type 0} (decode : T → Bytes → Result M) (is_empty_type : T → Bool)
    (empty_message : M) (same_type : T → T → Bool) (is_message : T → Bool)
    (bytes_type empty_type : T) where
  -- A client sends an iterator of messages of one type, the server parses with this type, and the stub
  -- returns the buffers of the answers that the server sends, an iterator of messages of another type, by
  -- which the client parses. There is one message at least on each side, each has at least one byte, and
  -- can be decoded. Then nothing is raised, the server gets the client's messages and the client the
  -- server's answers, all of them and in their order: the messages in memory, or files with their bytes.
  pub client_grpc-answers :
      (client server : Environment) (store store' : Store) (serialize serialize' : Block → Bytes)
      (wbp_fuel wbp_fuel' : ℕ) (type type' : T) (mode mode' : Bool) (x y : Sample M)
      (xs ys : List (Sample M)) (method : Trace Buffer → List Buffer) (response : List Buffer)
      → IsMessageType same_type is_message type
      → IsMessageType same_type is_message type'
      → All (IsDecodable type decode) (x ∷ xs)
      → All (IsDecodable type' decode) (y ∷ ys)
      → drain (
          serialize_to_buffer same_type is_message bytes_type empty_type server store' no_indices
            (iterator (items type' (y ∷ ys))))
        ≡ ok response
      → method (
          serialize_to_buffer same_type is_message bytes_type empty_type client store no_indices
            (iterator (items type (x ∷ xs))))
        ≡ response
      → ((request : List Buffer) × (drain (
              serialize_to_buffer same_type is_message bytes_type empty_type client store no_indices
                (iterator (items type (x ∷ xs))))
            ≡ ok request)
          × (parse_from_buffer server serialize' wbp_fuel' decode is_empty_type empty_message
                is_message bytes_type
                (one_type type)
                (one_mode mode')
                request
                store'
              ≡ (all_got type mode' (x ∷ xs), store')))
        × (client_grpc client serialize wbp_fuel decode is_empty_type empty_message same_type
              is_message bytes_type empty_type method
              (iterator (items type (x ∷ xs)))
              (one_type type')
              (some (one_mode mode))
              no_indices
              store
            ≡ (all_got type' mode (y ∷ ys), store))
  unfolding client_grpc
  client_grpc-answers client server store store' serialize serialize' wbp_fuel wbp_fuel' type type'
        mode mode' x y xs ys method response (same, message) (same', message') good good' answered
        called =
      let (response', drained, received) =
        parse_from_buffer-serialize_to_buffer type' same_type is_message bytes_type empty_type same'
          message' server client store' store serialize wbp_fuel decode is_empty_type empty_message
          mode y ys good' in
      let same_response : response' ≡ response = ok_injective (sym drained ∙ answered) in
      (
        parse_from_buffer-serialize_to_buffer type same_type is_message bytes_type empty_type same
            message client server store store' serialize' wbp_fuel' decode is_empty_type
            empty_message mode' x xs good,
        ap
              (λ bs.
                parse_from_buffer client serialize wbp_fuel decode is_empty_type empty_message
                  is_message bytes_type (one_type type') (one_mode mode) bs store)
              (called ∙ sym same_response)
            ∙ received,
      )
