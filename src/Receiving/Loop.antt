-- ===== src/Receiving/Loop.antt =====
-- `iterate_message` and the main loop of `parse_from_buffer` (src/bee_rpc/client.py), without a control.
-- The request iterator that all calls share is the list of the buffers that are still to come. What is
-- yielded is a message, or a `Dir` with what stands at its path. Each round takes a buffer at least, so
-- one more round than there are buffers is enough.
use bee_rpc_over_grpc_py.Prelude.{
  ℕ, zero, suc, Bool, true, false, Option, none, some, List, [], ◌∷◌, length, if◌then◌else◌,
}
use bee_rpc_over_grpc_py.Outcome.{Result, ok, err, plain, recursion_error}
use bee_rpc_over_grpc_py.Trace.{Trace, stop, raise, next}
use bee_rpc_over_grpc_py.Varint.{Bytes}
use bee_rpc_over_grpc_py.Wire.{Block, Buffer}
use bee_rpc_over_grpc_py.Environment.{Environment}
use bee_rpc_over_grpc_py.Store.{Node, Store}
use bee_rpc_over_grpc_py.Driver.{Dict, get_key}
use bee_rpc_over_grpc_py.Parser.{Effects}
use bee_rpc_over_grpc_py.Step.{Step, pure, continue}
use bee_rpc_over_grpc_py.Receiving.{parse_message}
use bee_rpc_over_grpc_py.Receiving.Files.{save_to_dir}
use bee_rpc_over_grpc_py.Receiving.Setup.{Indices, Modes, has_key, prepare}

pub data Parsed (M T : Type 0) : Type 0 where
  in_memory : M → Parsed M T
  on_disk : Node → T → Parsed M T

abbrev pub no_effects : Effects
no_effects = record { signals = 0; control = none }

module _ (env : Environment) (serialize : Block → Bytes) (wbp_fuel : ℕ) {M T : Type 0}
    (decode : T → Bytes → Result M) (is_empty_type : T → Bool) (empty_message : M) where
  abbrev pub memory_result :
      Result (Option M × (List Buffer × Effects)) → Result (Option (Parsed M T) × List Buffer)
  memory_result (err e) = err e
  memory_result (ok (none, (rest, fx))) = ok (none, rest)
  memory_result (ok (some m, (rest, fx))) = ok (some (in_memory m), rest)

  abbrev pub disk_result : T → Node × List Buffer → Result (Option (Parsed M T) × List Buffer)
  disk_result t (node, rest) = ok (some (on_disk node t), rest)

  -- `none` is the EmptyBufferException.
  unfoldable pub iterate_message : T → Bool → List Buffer → Step (Option (Parsed M T) × List Buffer)
  unfolding parse_message save_to_dir
  iterate_message t true input = λ store. (
    store,
    memory_result (parse_message env store (decode t) (suc (length input)) input no_effects),
  )
  iterate_message t false input = λ store.
      continue (save_to_dir env serialize wbp_fuel input store) (λ q. pure (disk_result t q))

  abbrev pub chosen :
      Result T → Result Bool → List Buffer → Step (Option (Parsed M T) × List Buffer)
  chosen (err e) mode input = pure (err e)
  chosen (ok t) (err e) input = pure (err e)
  chosen (ok t) (ok mode) input = iterate_message t mode input

  -- The index of a part and the index whose type decides what an empty part is.
  abbrev pub index_of : Dict T → Option ℕ → Result (ℕ × ℕ)
  index_of indices (some i) = if has_key indices i then ok (i, 1) else err plain
  index_of indices none =
      if has_key indices 1 then ok (1, 1) else if has_key indices 0 then ok (0, 0) else err plain

  -- The generator, and the registry once it was read to its end.
  abbrev pub Run : Type 0
  Run = Trace (Parsed M T) × Store

  abbrev pub yield_first : Parsed M T → Run → Run
  yield_first m (t, store) = (next m t, store)

  abbrev pub on_empty : Result T → Store → Run → Run
  on_empty (err e) store later = (raise e, store)
  on_empty (ok t) store later =
      if is_empty_type t then yield_first (in_memory empty_message) later else later

  abbrev pub after_message :
      (List Buffer → Store → Run)
      → Result T
      → Store × Result (Option (Parsed M T) × List Buffer)
      → Run
  after_message loop t (store, err e) = (raise e, store)
  after_message loop t (store, ok (some m, rest)) = yield_first m (loop rest store)
  after_message loop t (store, ok (none, rest)) = on_empty t store (loop rest store)

  module _ (indices : Dict T) (modes : Dict Bool) where
    abbrev pub message_at : ℕ → List Buffer → Step (Option (Parsed M T) × List Buffer)
    message_at i input = chosen (get_key indices i) (get_key modes i) input

    abbrev pub on_index : (List Buffer → Store → Run) → Result (ℕ × ℕ) → List Buffer → Store → Run
    on_index loop (err e) input store = (raise e, store)
    on_index loop (ok (i, k)) input store =
        after_message loop (get_key indices k) (message_at i input store)

    unfoldable pub parse_loop : ℕ → List Buffer → Store → Run
    unfolding iterate_message has_key get_key
    parse_loop zero input store = (raise recursion_error, store)
    parse_loop (suc fuel) [] store = (stop, store)
    parse_loop (suc fuel) (b ∷ input) store =
        on_index (parse_loop fuel) (index_of indices b.head) (b ∷ input) store

  abbrev pub when_prepared : Result (Dict T × Dict Bool) → List Buffer → Store → Run
  when_prepared (err e) input store = (raise e, store)
  when_prepared (ok (indices, modes)) input store =
      parse_loop indices modes (suc (length input)) input store

  unfoldable pub parse_from_buffer : (T → Bool) → T → Indices T → Modes → List Buffer → Store → Run
  unfolding prepare parse_loop
  parse_from_buffer is_message bytes_type indices modes input store =
      when_prepared (prepare is_message bytes_type indices modes) input store
