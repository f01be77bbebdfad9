-- ===== src/Varint.antt =====
-- The base-128 numbers of the protobuf encoding: `encode_bytes` (src/bee_rpc/utils.py),
-- `get_position_length` (block_builder.py), the reading loop of `get_varint_at_position` (utils.py)
-- and `set_varint_value` (block_driver.py). A byte string is a list of numbers below 256.
-- `n & 0x7f` on an unbounded integer is written `n % 2 ^ 7`, and `n >>= 7` is `n / 2 ^ 7`.
pub mod Groups
pub mod RoundTrip
pub mod Rewrite
mod Runs
use Prim.Native.Nat.{bit_and, bit_or}
use mathlib.Core.Logic.{dite}
use mathlib.Core.WellFounded.{Acc}
use native.Mathlib.Decide.{dec_lt}
use bee_rpc_over_grpc_py.Prelude.{
  ℕ, zero, suc, ◌+◌, ◌*◌, ◌/◌, ◌%◌, ◌^◌, ◌<◌, ◌++◌, Bool, List, [], ◌∷◌, Option, none, some, take,
  drop, arith, ◌==◌, if◌then◌else◌,
}
use bee_rpc_over_grpc_py.Prelude.Order.{lt_wf}

abbrev pub Bytes : Type 0
Bytes = List ℕ

abbrev pub IsByte : ℕ → Type 0
IsByte b = b < 256

pub shift_shrinks : (n : ℕ) → 0 < n / 2 ^ 7 → n / 2 ^ 7 < n
shift_shrinks n h = omega arith

-- The loop of `encode_bytes`; it goes on while what is left of `n` is not 0.
pub encode_loop : Bytes → (n : ℕ) → Acc ◌<◌ n → Bytes
encode_loop buf n (Acc.intro _ smaller) =
    let towrite = n % 2 ^ 7 in
    dite (dec_lt 0 (n / 2 ^ 7))
      (λ more.
        encode_loop (buf ++ (bit_or towrite 0x80 ∷ [])) (n / 2 ^ 7)
          (smaller _ (shift_shrinks n more)))
      (λ _. buf ++ (towrite ∷ []))

unfoldable pub encode_bytes : ℕ → Bytes
unfolding encode_loop lt_wf dec_lt
encode_bytes n = encode_loop [] n (lt_wf.apply n)

-- `value |= (byte & 0x7F) << shift`
abbrev pub add_group : ℕ → ℕ → ℕ → ℕ
add_group value byte shift = bit_or value (bit_and byte 0x7f * 2 ^ shift)

-- The list is the buffer from `index` on; `none` is the IndexError at its end.
unfoldable pub position_loop : Bytes → ℕ → ℕ → Option ℕ
position_loop [] value shift = none
position_loop (byte ∷ rest) value shift =
    let value' = add_group value byte shift in
    let more = position_loop rest value' (shift + 7) in
    if bit_and byte 0x80 == 0 then some value' else more

unfoldable pub get_position_length : ℕ → Bytes → Option ℕ
unfolding position_loop
get_position_length varint_pos buffer = position_loop (drop varint_pos buffer) 0 0

-- The loop of `get_varint_at_position` over what the file holds from the offset on: it stops
-- silently where the file ends.
unfoldable pub varint_loop : Bytes → ℕ → ℕ → ℕ
varint_loop [] result shift = result
varint_loop (byte ∷ rest) result shift =
    let result' = add_group result byte shift in
    let more = varint_loop rest result' (shift + 7) in
    if bit_and byte 0x80 == 0 then result' else more

-- The first loop of `set_varint_value`, which writes its own encoding of the value.
pub set_bytes_loop : Bytes → (n : ℕ) → Acc ◌<◌ n → Bytes
set_bytes_loop varint_bytes n (Acc.intro _ smaller) =
    let byte = n % 2 ^ 7 in
    dite (dec_lt 0 (n / 2 ^ 7))
      (λ more.
        set_bytes_loop (varint_bytes ++ (bit_or byte 0x80 ∷ [])) (n / 2 ^ 7)
          (smaller _ (shift_shrinks n more)))
      (λ _. varint_bytes ++ (byte ∷ []))

-- The second loop of it: how many bytes the varint at the head takes (`none` is an IndexError).
unfoldable pub original_varint_length : Bytes → Option ℕ
original_varint_length [] = none
original_varint_length (byte ∷ rest) =
    let more = original_varint_length rest in
    if bit_and byte 0x80 == 0 then some 1 else elim more [ none ↦ none | some n ↦ some (n + 1) ]

-- `_buffer[:_varint_pos] + varint_bytes + _buffer[_varint_pos + original_varint_length:]`
abbrev pub splice : ℕ → Bytes → Bytes → Option ℕ → Option Bytes
splice varint_pos buffer varint_bytes none = none
splice varint_pos buffer varint_bytes (some n) =
    some (take varint_pos buffer ++ (varint_bytes ++ drop (varint_pos + n) buffer))

unfoldable pub set_varint : ℕ → Bytes → ℕ → Option Bytes
unfolding set_bytes_loop original_varint_length lt_wf dec_lt
set_varint varint_pos buffer new_value =
    splice varint_pos buffer (set_bytes_loop [] new_value (lt_wf.apply new_value))
      (original_varint_length (drop varint_pos buffer))
