-- ===== src/BeeFile.antt =====
-- `.bee` files: the writing loop of `write_to_file` (src/bee_rpc/client.py) and `read_bee_file`
-- (src/bee_rpc/reader.py). `SerializeToString` and `ParseFromString` of `Buffer` are the protobuf
-- library's and stand as parameters; `none` is its DecodeError.
pub mod RoundTrip
mod Runs
use bee_rpc_over_grpc_py.Prelude.{
  ℕ, zero, suc, ◌+◌, ◌*◌, ◌/◌, ◌%◌, ◌^◌, Option, none, some, List, [], ◌∷◌, ◌++◌, length, take,
  drop, ltb, ◌==◌, if◌then◌else◌,
}
use bee_rpc_over_grpc_py.Outcome.{Error, Result, ok, err, value_error, overflow_error}
use bee_rpc_over_grpc_py.Trace.{Trace, stop, raise, next}
use bee_rpc_over_grpc_py.Varint.{Bytes}
use bee_rpc_over_grpc_py.Wire.{Buffer}

-- `size.to_bytes(4, byteorder='big')`; `none` is its OverflowError.
unfoldable pub to_bytes_4 : ℕ → Option Bytes
to_bytes_4 size =
    if ltb size (2 ^ 32)
    then some ((size / 2 ^ 24) ∷ (size / 2 ^ 16 % 256) ∷ (size / 2 ^ 8 % 256) ∷ (size % 256) ∷ [])
    else none

-- `int.from_bytes(size_bytes, byteorder='big')`
abbrev pub from_bytes_big : ℕ → Bytes → ℕ
from_bytes_big value [] = value
from_bytes_big value (b ∷ bs) = from_bytes_big (value * 256 + b) bs

-- What the file holds when the loop ends, and whether it ended by an exception.
abbrev append_file : Option Bytes → Bytes → Bytes × Result (Unit {0}) → Bytes × Result (Unit {0})
append_file none content rest = ([], err overflow_error)
append_file (some size) content rest = (size ++ (content ++ rest.0), rest.1)

unfoldable pub write_to_file : (Buffer → Bytes) → Trace Buffer → Bytes × Result (Unit {0})
unfolding to_bytes_4
write_to_file serialize stop = ([], ok tt)
write_to_file serialize (raise e) = ([], err e)
write_to_file serialize (next b t) =
    append_file (to_bytes_4 (length (serialize b))) (serialize b) (write_to_file serialize t)

abbrev parsed : Option Buffer → Trace Buffer → Trace Buffer
parsed none rest = raise value_error
parsed (some b) rest = next b rest

-- The message behind a size of four bytes; `rest` reads on behind it.
abbrev pub read_message : (Bytes → Option Buffer) → ℕ → Bytes → Trace Buffer → Trace Buffer
read_message parse size content rest =
    if length (take size content) == size
    then parsed (parse (take size content)) rest
    else raise value_error

-- Each round takes four bytes at least, so as many rounds as there are bytes are enough.
unfoldable pub read_loop : (Bytes → Option Buffer) → ℕ → Bytes → Trace Buffer
read_loop parse fuel [] = stop
read_loop parse zero (a ∷ content) = raise value_error
read_loop parse (suc fuel) (a ∷ b ∷ c ∷ d ∷ content) =
    let size = from_bytes_big 0 (a ∷ b ∷ c ∷ d ∷ []) in
    let rest = read_loop parse fuel (drop size content) in read_message parse size content rest
read_loop parse (suc fuel) _ = raise value_error

unfoldable pub read_bee_file : (Bytes → Option Buffer) → Bytes → Trace Buffer
unfolding read_loop
read_bee_file parse content = read_loop parse (length content) content
