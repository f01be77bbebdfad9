-- ===== src/Exchange.antt =====
-- Two nodes: what `serialize_to_buffer` of one sends, `parse_from_buffer` of the other parses
-- (src/bee_rpc/client.py). Both are on a stream without a control.
mod OneMessage
pub mod Defaults
pub mod Controlled
mod Runs
use bee_rpc_over_grpc_py.Prelude.{
  ℕ, zero, suc, ◌<◌, ◌≡◌, ◌≢◌, refl, sym, ap, ◌∙◌, Bool, true, false, Option, none, some, List, [],
  ◌∷◌, ◌++◌, append_assoc, length, length-append, arith, Bool-cases, inl, inr, if◌then◌else◌, ◌==◌,
  All,
}
use bee_rpc_over_grpc_py.Outcome.{Result, ok, err, ok_injective, Result-cases}
use bee_rpc_over_grpc_py.Trace.{drain-then_from, Trace, stop, raise, next, ◌then_from◌, drain}
use bee_rpc_over_grpc_py.Varint.{Bytes}
use bee_rpc_over_grpc_py.Wire.{Block, Buffer}
use bee_rpc_over_grpc_py.Environment.{Environment}
use bee_rpc_over_grpc_py.Store.{file, Store}
use bee_rpc_over_grpc_py.Driver.{Dict, get_key}
use bee_rpc_over_grpc_py.Sending.{Outgoing, dir_of, value, send, payload}
use bee_rpc_over_grpc_py.Sending.RoundTrip.{decoded-ok}
use bee_rpc_over_grpc_py.Receiving.Setup.{Indices, Modes, has_key, prepare}
use bee_rpc_over_grpc_py.Receiving.Loop.{
  Parsed, in_memory, on_disk, no_effects, message_at, iterate_message, Run, yield_first, parse_loop,
  parse_from_buffer,
}
use bee_rpc_over_grpc_py.Exchange.OneMessage.{
  has_key-get_key, Framed, Framed-head, send_file-Framed, send_message-Framed, parse_message-Framed,
  save_to_dir-Framed,
}

-- A `Dir` with a plain file, or a message that contains blocks or does not.
pub data Form : Type 0 where
  plain_file : Form
  message_with : Bool → Form

-- What is sent, by its type, the index of the type and its bytes; and what the receiver gets.
pub record Letter (M T : Type 0) : Type 0 where
  pub form : Form
  pub type : T
  pub index : ℕ
  pub bytes : Bytes
  pub received : Option (Parsed M T)

abbrev pub form_sent : Form → ℕ → Bytes → Outgoing
form_sent plain_file index bytes = dir_of (some index) (some (file bytes))
form_sent (message_with blocks) index bytes = value (some index) bytes blocks

abbrev pub outgoing : {M T : Type 0} → List (Letter M T) → List Outgoing
outgoing [] = []
outgoing (l ∷ ls) = form_sent l.form l.index l.bytes ∷ outgoing ls

abbrev with_received :
    {M T : Type 0} → Option (Parsed M T) → Trace (Parsed M T) → Trace (Parsed M T)
with_received none later = later
with_received (some p) later = next p later

abbrev pub received_of : {M T : Type 0} → List (Letter M T) → Trace (Parsed M T)
received_of [] = stop
received_of (l ∷ ls) = with_received l.received (received_of ls)

module _ {M T : Type 0} (decode : T → Bytes → Result M) (is_empty_type : T → Bool)
    (indices : Dict T) (modes : Dict Bool) where
  -- In memory, a message of at least one byte is what its bytes decode to, and one of no byte is lost,
  -- unless the index 1 is that of `Empty`; on disk, there is a file with the bytes.
  abbrev GetsAs : T → ℕ → Bytes → Option (Parsed M T) → Type 0
  GetsAs type index bytes none =
      (get_key modes index ≡ ok true)
      × (bytes ≡ [])
      × ((t : T) × (get_key indices 1 ≡ ok t) × (is_empty_type t ≡ false))
  GetsAs type index bytes (some (in_memory m)) =
      (get_key modes index ≡ ok true) × (bytes ≢ []) × (decode type bytes ≡ ok m)
  GetsAs type index bytes (some (on_disk node t)) =
      (get_key modes index ≡ ok false) × (node ≡ file bytes) × (t ≡ type)

  -- The receiver knows the index of the type, and gets the message as stated.
  abbrev pub IsReceived : Letter M T → Type 0
  IsReceived l = (get_key indices l.index ≡ ok l.type) × GetsAs l.type l.index l.bytes l.received

pub send-Framed :
    (env : Environment) (store : Store) (form : Form) (index : ℕ) (bytes : Bytes)
    → (out : List Buffer) × (drain (send env store (form_sent form index bytes)) ≡ ok out)
      × Framed index bytes out
send-Framed env store plain_file index bytes = send_file-Framed env store index bytes
send-Framed env store (message_with blocks) index bytes =
    send_message-Framed env store index bytes blocks

module _ (env : Environment) (serialize : Block → Bytes) (wbp_fuel : ℕ) {M T : Type 0}
    (decode : T → Bytes → Result M) (is_empty_type : T → Bool) (empty_message : M)
    (store : Store) where
  abbrev with_first :
      Option (Parsed M T)
      → Run env serialize wbp_fuel decode is_empty_type empty_message
      → Run env serialize wbp_fuel decode is_empty_type empty_message
  with_first p (t, s) = (with_received p t, s)

  module _ (indices : Dict T) (modes : Dict Bool) where
    abbrev receive : ℕ → List Buffer → Run env serialize wbp_fuel decode is_empty_type empty_message
    receive fuel input =
        parse_loop env serialize wbp_fuel decode is_empty_type empty_message indices modes fuel
          input store

    -- The message at the front of the stream.
    message_at-Framed :
        (type : T) (index : ℕ) (bytes : Bytes) (out rest : List Buffer) (p : Option (Parsed M T))
        → Framed index bytes out
        → get_key indices index ≡ ok type
        → GetsAs decode is_empty_type indices modes type index bytes p
        → message_at env serialize wbp_fuel decode is_empty_type empty_message indices modes index
            (out ++ rest)
            store
          ≡ (store, ok (p, rest))
    unfolding iterate_message
    message_at-Framed type index bytes out rest none framed typed (kept, empty, lost) =
        rw
          (
            typed,
            kept,
            parse_message-Framed env store (decode type) index bytes out rest none no_effects framed
                (rw empty refl),
          )
          refl
    message_at-Framed type index bytes out rest (some (in_memory m)) framed typed
          (kept, some_byte, decodes) =
        rw
          (
            typed,
            kept,
            parse_message-Framed env store (decode type) index bytes out rest (some m) no_effects
                framed (decoded-ok env store (decode type) bytes m some_byte decodes),
          )
          refl
    message_at-Framed type index bytes out rest (some (on_disk node t)) framed typed
          (kept, here, same) =
        rw
          (
            typed,
            kept,
            save_to_dir-Framed env serialize wbp_fuel index bytes out rest store framed,
            here,
            same,
          )
          refl

    -- One round of the main loop.
    receive_one :
        (fuel : ℕ) (type : T) (index : ℕ) (bytes : Bytes) (b : Buffer) (input rest : List Buffer)
        (p : Option (Parsed M T))
        → b.head ≡ some index
        → get_key indices index ≡ ok type
        → GetsAs decode is_empty_type indices modes type index bytes p
        → message_at env serialize wbp_fuel decode is_empty_type empty_message indices modes index
            (b ∷ input)
            store
          ≡ (store, ok (p, rest))
        → receive (suc fuel) (b ∷ input) ≡ with_first p (receive fuel rest)
    unfolding parse_loop
    receive_one fuel type index bytes b input rest none headed typed
          (kept, empty, (t, first, other)) parsed =
        simp (headed, has_key-get_key indices index type typed, parsed, first, other)
    receive_one fuel type index bytes b input rest (some p) headed typed gets parsed =
        simp (headed, has_key-get_key indices index type typed, parsed)

    receive_nothing : (fuel : ℕ) → 0 < fuel → receive fuel [] ≡ (stop, store)
    unfolding parse_loop
    receive_nothing zero h = absurd (omega (arith, h))
    receive_nothing (suc fuel) h = refl

    receive_first :
        (l : Letter M T) (out later : List Buffer) (t : Trace (Parsed M T)) (fuel : ℕ)
        → Framed l.index l.bytes out
        → IsReceived decode is_empty_type indices modes l
        → ((fuel' : ℕ) → length later < fuel' → receive fuel' later ≡ (t, store))
        → length (out ++ later) < fuel
        → receive fuel (out ++ later) ≡ (with_received l.received t, store)
    receive_first l out later t zero framed good received h = absurd (omega (arith, h))
    receive_first l out later t (suc fuel) framed (typed, gets) received h =
        let (b, more, same, headed) = Framed-head l.index l.bytes out framed in
        let parsed =
          message_at-Framed l.type l.index l.bytes out later l.received framed typed gets in
        ap (λ bs. receive (suc fuel) (bs ++ later)) same
        ∙ receive_one fuel l.type l.index l.bytes b (more ++ later) later l.received headed typed
            gets (rw same at parsed)
        ∙ ap (λ r. with_first l.received r)
            (received fuel
              (omega (arith, h, length-append out later, ap length same, length-append more later)))

    receive_letters :
        (env' : Environment) (store' : Store) (ls : List (Letter M T))
        → All (IsReceived decode is_empty_type indices modes) ls
        → (out : List Buffer) × (drain (payload env' store' (outgoing ls)) ≡ ok out)
          × ((fuel : ℕ) → length out < fuel → receive fuel out ≡ (received_of ls, store))
    unfolding payload
    receive_letters env' store' [] good = ([], refl, λ fuel h. receive_nothing fuel h)
    receive_letters env' store' (l ∷ ls) (good, all_good) =
        let (later, drained, received) = receive_letters env' store' ls all_good in
        let (out, sent, framed) = send-Framed env' store' l.form l.index l.bytes in
        (
          out ++ later,
          drain-then_from (send env' store' (form_sent l.form l.index l.bytes))
              (payload env' store' (outgoing ls)) out later sent drained,
          λ fuel h. receive_first l out later (received_of ls) fuel framed good received h,
        )

  -- Messages and plain files that one node sends, of whatever sizes: nothing is raised, and a node that
  -- is set up for them yields what it gets of each, in their order, and ends without an exception and
  -- with its registry as it was. It gets a file with the bytes where it keeps the type on disk; in
  -- memory it gets the message that the bytes decode to, and nothing for a message of no byte, where the
  -- type of the index 1 is another than `Empty`.
  pub parse_from_buffer-payload :
      (env' : Environment) (store' : Store) (is_message : T → Bool) (bytes_type : T)
      (given : Indices T) (given_modes : Modes) (indices : Dict T) (modes : Dict Bool)
      (ls : List (Letter M T))
      → prepare is_message bytes_type given given_modes ≡ ok (indices, modes)
      → All (IsReceived decode is_empty_type indices modes) ls
      → (out : List Buffer) × (drain (payload env' store' (outgoing ls)) ≡ ok out)
        × (parse_from_buffer env serialize wbp_fuel decode is_empty_type empty_message is_message
              bytes_type given given_modes out store
            ≡ (received_of ls, store))
  unfolding parse_from_buffer
  parse_from_buffer-payload env' store' is_message bytes_type given given_modes indices modes ls
        prepared good =
      let (out, drained, received) = receive_letters indices modes env' store' ls good in
      (out, drained, rw prepared (received (suc (length out)) (omega arith)))
