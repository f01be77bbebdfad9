-- ===== src/Client/Skipping.antt =====
-- A call with `block_skip`: skip requests travel on both directions.
use mathlib.Core.Path.{subst}
use bee_rpc_over_grpc_py.Prelude.{ℕ, ◌≡◌, refl, sym, ap, ◌∙◌, Bool, true, some, List, ◌∷◌, All}
use bee_rpc_over_grpc_py.Outcome.{Result, ok, ok_injective}
use bee_rpc_over_grpc_py.Trace.{Trace, drain}
use bee_rpc_over_grpc_py.Varint.{Bytes}
use bee_rpc_over_grpc_py.Wire.{Block, Buffer}
use bee_rpc_over_grpc_py.Environment.{Environment}
use bee_rpc_over_grpc_py.Store.{Store}
use bee_rpc_over_grpc_py.Control.{StreamControl, new_control, reader}
use bee_rpc_over_grpc_py.Control.Queue.{Call, perform_all}
use bee_rpc_over_grpc_py.Sending.{payload}
use bee_rpc_over_grpc_py.Sending.Setup.{
  iterator, when_prepared, prepare_sending, serialize_to_buffer,
}
use bee_rpc_over_grpc_py.Sending.Interleave.{Schedule, with_control}
use bee_rpc_over_grpc_py.Sending.Outbound.{NoSkip, with_control-Passes}
use bee_rpc_over_grpc_py.Sending.Outbound.OpenDirection.{reader-request_stream}
use bee_rpc_over_grpc_py.Receiving.Setup.{no_indices, one_type, one_mode}
use bee_rpc_over_grpc_py.Receiving.Loop.{parse_from_buffer}
use bee_rpc_over_grpc_py.Exchange.{outgoing}
use bee_rpc_over_grpc_py.Exchange.Controlled.{payload-NoSkip}
use bee_rpc_over_grpc_py.Exchange.Defaults.{
  Sample, items, all_got, letters, IsDecodable, prepare_sending-items,
  parse_from_buffer-serialize_to_buffer,
}
use bee_rpc_over_grpc_py.Client.{sent_request, client_grpc_block_skip}
use bee_rpc_over_grpc_py.Client.Call.{IsMessageType}

module _ {M T : Type 0} (decode : T → Bytes → Result M) (is_empty_type : T → Bool)
    (empty_message : M) (same_type : T → T → Bool) (is_message : T → Bool)
    (bytes_type empty_type : T) where
  -- What is sent without a control has no skip requests.
  serialize_to_buffer-NoSkip :
      (env : Environment) (store : Store) (type : T) (x : Sample M) (xs : List (Sample M))
      → IsMessageType same_type is_message type
      → (bs : List Buffer) × (drain (
            serialize_to_buffer same_type is_message bytes_type empty_type env store no_indices
              (iterator (items type (x ∷ xs))))
          ≡ ok bs)
        × NoSkip bs
  unfolding serialize_to_buffer
  serialize_to_buffer-NoSkip env store type x xs (same, message) =
      let (bs, drained, plain) = payload-NoSkip env store (letters type true (x ∷ xs)) in
      (
        bs,
        ap (λ r. drain (when_prepared same_type is_message bytes_type empty_type env store r))
              (prepare_sending-items type same_type is_message bytes_type empty_type same message
                true x xs)
            ∙ drained,
        plain,
      )

  module _ (client server : Environment) (store store' : Store)
      (serialize serialize' : Block → Bytes) (wbp_fuel wbp_fuel' : ℕ) where
    abbrev request_of : T → Schedule → Schedule → List (Sample M) → Trace Buffer
    request_of type schedule rounds xs =
        (sent_request client serialize wbp_fuel decode is_empty_type empty_message same_type
          is_message bytes_type empty_type schedule rounds store
          (prepare_sending same_type is_message bytes_type empty_type no_indices
            (iterator (items type xs)))).0

    -- The server's side of the call.
    request-received :
        (type : T) (mode : Bool) (x : Sample M) (xs : List (Sample M)) (schedule rounds : Schedule)
        (control : StreamControl)
        → IsMessageType same_type is_message type
        → All (IsDecodable type decode) (x ∷ xs)
        → control.enabled ≡ true
        → (out : List Buffer) × (drain (request_of type schedule rounds (x ∷ xs)) ≡ ok out)
          × (parse_from_buffer server serialize' wbp_fuel' decode is_empty_type empty_message
                is_message bytes_type
                (one_type type)
                (one_mode mode)
                (reader client.hash_type control out).1
                store'
              ≡ (all_got type mode (x ∷ xs), store'))
    unfolding serialize_to_buffer
    request-received type mode x xs schedule rounds control (same, message) good on =
        let prepared =
          prepare_sending-items type same_type is_message bytes_type empty_type same message true x
            xs in
        let (bs, sent, received) =
          parse_from_buffer-serialize_to_buffer type same_type is_message bytes_type empty_type same
            message client server store store' serialize' wbp_fuel' decode is_empty_type
            empty_message mode x xs good in
        let (bs', sent', plain') = payload-NoSkip client store (letters type true (x ∷ xs)) in
        let drained =
          ap (λ r. drain (when_prepared same_type is_message bytes_type empty_type client store r))
            prepared in
        let same_bs : bs' ≡ bs = ok_injective (sym sent' ∙ (sym drained ∙ sent)) in
        let (out, out_drained, passed) =
          reader-request_stream client.hash_type schedule rounds
            (payload client store (outgoing (letters type true (x ∷ xs)))) bs control
            (sym drained ∙ sent) (subst (λ t. NoSkip t) same_bs plain') on in
        (
          out,
          ap
                (λ r.
                  drain
                    (sent_request client serialize wbp_fuel decode is_empty_type empty_message
                      same_type is_message bytes_type empty_type schedule rounds store r).0)
                prepared
              ∙ out_drained,
          ap
                (λ t.
                  parse_from_buffer server serialize' wbp_fuel' decode is_empty_type empty_message
                    is_message bytes_type (one_type type) (one_mode mode) t store')
                passed
              ∙ received,
        )

    -- What the client's reader passes on of the answers.
    response-passed :
        (type : T) (y : Sample M) (ys : List (Sample M)) (before : List Call) (schedule : Schedule)
        (bs response : List Buffer)
        → IsMessageType same_type is_message type
        → drain (
            serialize_to_buffer same_type is_message bytes_type empty_type server store' no_indices
              (iterator (items type (y ∷ ys))))
          ≡ ok bs
        → drain
            (with_control client.hash_type
              (perform_all client.hash_type (new_control true) before)
              schedule
              (serialize_to_buffer same_type is_message bytes_type empty_type server store'
                no_indices
                (iterator (items type (y ∷ ys))))).0
          ≡ ok response
        → (reader client.hash_type (new_control true) response).1 ≡ bs
    response-passed type y ys before schedule bs response is_type sent answered =
        let (bs', sent', plain') = serialize_to_buffer-NoSkip server store' type y ys is_type in
        let same_bs : bs' ≡ bs = ok_injective (sym sent' ∙ sent) in
        let (out, drained, passes) =
          with_control-Passes client.hash_type before schedule
            (serialize_to_buffer same_type is_message bytes_type empty_type server store' no_indices
              (iterator (items type (y ∷ ys))))
            bs sent (subst (λ t. NoSkip t) same_bs plain') in
        let same_out : out ≡ response = ok_injective (sym drained ∙ answered) in
        ap (λ t. (reader client.hash_type (new_control true) t).1) (sym same_out)
        ∙ passes (new_control true) refl

    -- A call with `block_skip`: both sides have an enabled control, the server's after any calls of its
    -- methods, both use the hash type of the client, and other threads make any calls between the
    -- steps. The client sends an iterator of messages of one type, by which the server parses, and the stub
    -- returns the buffers of the answers that the server sends through its control, an iterator of
    -- messages of another type, by which the client parses; there is one message at least on each side,
    -- each has at least one byte, and can be decoded. Then nothing is raised, the server gets the client's
    -- messages and the client the server's answers, all of them and in their order: the messages in
    -- memory, or files with their bytes.
    pub client_grpc_block_skip-answers :
        (type type' : T) (mode mode' : Bool) (x y : Sample M) (xs ys : List (Sample M))
        (method : Trace Buffer → List Buffer) (response : List Buffer)
        (schedule rounds schedule' : Schedule) (before : List Call) (control : StreamControl)
        → IsMessageType same_type is_message type
        → IsMessageType same_type is_message type'
        → All (IsDecodable type decode) (x ∷ xs)
        → All (IsDecodable type' decode) (y ∷ ys)
        → control.enabled ≡ true
        → drain
            (with_control client.hash_type
              (perform_all client.hash_type (new_control true) before)
              schedule'
              (serialize_to_buffer same_type is_message bytes_type empty_type server store'
                no_indices
                (iterator (items type' (y ∷ ys))))).0
          ≡ ok response
        → method (request_of type schedule rounds (x ∷ xs)) ≡ response
        → ((out : List Buffer) × (drain (request_of type schedule rounds (x ∷ xs)) ≡ ok out)
            × (parse_from_buffer server serialize' wbp_fuel' decode is_empty_type empty_message
                  is_message bytes_type
                  (one_type type)
                  (one_mode mode')
                  (reader client.hash_type control out).1
                  store'
                ≡ (all_got type mode' (x ∷ xs), store')))
          × (client_grpc_block_skip client serialize wbp_fuel decode is_empty_type empty_message
                same_type is_message bytes_type empty_type method
                (iterator (items type (x ∷ xs)))
                (one_type type')
                (some (one_mode mode))
                no_indices
                schedule
                rounds
                store
              ≡ (all_got type' mode (y ∷ ys), store))
    unfolding client_grpc_block_skip
    client_grpc_block_skip-answers type type' mode mode' x y xs ys method response schedule rounds
          schedule' before control is_type (same', message') good good' on answered called =
        let (bs, sent, received) =
          parse_from_buffer-serialize_to_buffer type' same_type is_message bytes_type empty_type
            same' message' server client store' store serialize wbp_fuel decode is_empty_type
            empty_message mode y ys good' in
        (
          request-received type mode' x xs schedule rounds control is_type good on,
          ap
                (λ t.
                  parse_from_buffer client serialize wbp_fuel decode is_empty_type empty_message
                    is_message bytes_type (one_type type') (one_mode mode)
                    (reader client.hash_type (new_control true) t).1 store)
                called
              ∙ ap
                  (λ t.
                    parse_from_buffer client serialize wbp_fuel decode is_empty_type empty_message
                      is_message bytes_type (one_type type') (one_mode mode) t store)
                  (response-passed type' y ys before schedule' bs response (same', message') sent
                    answered)
              ∙ received,
        )
