-- ===== src/ChunkReader.antt =====
-- The byte stream that knows its position: the class `_Reader` (src/bee_rpc/block_splitter.py). The
-- part of `_buffer` from `_offset` on stands as one list. What the hash object was fed is kept, and
-- not its state. A method that raises has no next state, since its caller gives the reader up.
pub mod Stream
pub mod Varints
mod Runs
use Prim.Native.Nat.{bit_and, min}
use bee_rpc_over_grpc_py.Prelude.{
  ℕ, zero, suc, ◌+◌, ◌-◌, Bool, true, false, not, List, [], ◌∷◌, ◌++◌, length, take, drop, ◌==◌,
  if◌then◌else◌,
}
use bee_rpc_over_grpc_py.Outcome.{Result, ok, err, split_error, recursion_error, ◌>>=◌, ◌>>◌}
use bee_rpc_over_grpc_py.Trace.{Trace, stop, raise, next}
use bee_rpc_over_grpc_py.Varint.{Bytes, add_group}
use bee_rpc_over_grpc_py.Store.{Item, piece, marker, chunk_size}

pub record Reader : Type 0 where
  pub chunks : Trace Item
  pub fed : Bytes
  pub left : Bytes
  pub position : ℕ

abbrev pub new_reader : Trace Item → Reader
new_reader chunks = record { chunks = chunks; fed = []; left = []; position = 0 }

-- `_fill`: what is no bytes, or empty, is passed over.
unfoldable pub fill_from : Trace Item → Reader → Result (Bool × Reader)
fill_from stop r = ok (false, record r { chunks = stop })
fill_from (raise e) r = err e
fill_from (next (piece []) t) r = fill_from t r
fill_from (next (marker b) t) r = fill_from t r
fill_from (next (piece (c ∷ cs)) t) r =
    ok (true, record r { chunks = t; fed = r.fed ++ (c ∷ cs); left = r.left ++ (c ∷ cs) })

abbrev pub filled : Bytes → Reader → Result (Bool × Reader)
filled [] r = fill_from r.chunks r
filled (b ∷ bs) r = ok (true, r)

-- `self._offset >= len(self._buffer) and not self._fill()`, negated: whether there is a byte.
unfoldable pub has_byte : Reader → Result (Bool × Reader)
unfolding fill_from
has_byte r = filled r.left r

abbrev pub flip : Bool × Reader → Bool × Reader
flip (more, r) = (not more, r)

unfoldable pub at_end : Reader → Result (Bool × Reader)
unfolding has_byte
at_end r = has_byte r >>= λ p. ok (flip p)

abbrev pub require : Bool → Result (Unit {0})
require true = ok tt
require false = err split_error

-- The loop of `read`. `wanted` is `n - len(out)`; each round takes a byte at least, so `n` rounds are
-- enough.
unfoldable pub read_rounds : ℕ → ℕ → Bytes → Reader → Result (Bytes × Reader)
unfolding has_byte
read_rounds fuel zero out r = ok (out, r)
read_rounds zero (suc wanted) out r = err recursion_error
read_rounds (suc fuel) (suc wanted) out r = do
  (more, r') ← has_byte r
  require more
  let taken = take (suc wanted) r'.left
  read_rounds fuel (suc wanted - length taken) (out ++ taken)
      (record r' { left = drop (suc wanted) r'.left })

unfoldable pub read : ℕ → Reader → Result (Bytes × Reader)
unfolding read_rounds
read n r = do (out, r') ← read_rounds n n [] r; ok (out, record r' { position = r'.position + n })

-- The loop of `copy`, and all that it writes, in its order.
unfoldable pub copy_rounds : ℕ → ℕ → Bytes → Reader → Result (Bytes × Reader)
unfolding has_byte
copy_rounds fuel zero written r = ok (written, r)
copy_rounds zero (suc n) written r = err recursion_error
copy_rounds (suc fuel) (suc n) written r = do
  (more, r') ← has_byte r
  require more
  let taken = take (min (suc n) chunk_size) r'.left
  copy_rounds fuel (suc n - length taken) (written ++ taken) (record r' {
    left = drop (min (suc n) chunk_size) r'.left;
    position = r'.position + length taken;
  })

unfoldable pub copy : ℕ → Reader → Result (Bytes × Reader)
unfolding copy_rounds
copy n r = copy_rounds n n [] r

abbrev pub first_byte : Bytes → ℕ
first_byte [] = 0
first_byte (b ∷ bs) = b

-- The loop of `varint`: `shift` passes 63 with the tenth byte.
unfoldable pub varint_rounds : ℕ → Bytes → ℕ → ℕ → Reader → Result (Bytes × ℕ × Reader)
unfolding read
varint_rounds zero raw value shift r = err split_error
varint_rounds (suc rounds) raw value shift r = do
  (byte, r') ← read 1 r
  let raw' = raw ++ byte
  let value' = add_group value (first_byte byte) shift
  let more = varint_rounds rounds raw' value' (shift + 7) r'
  if bit_and (first_byte byte) 0x80 == 0 then ok (raw', value', r') else more

unfoldable pub varint : Reader → Result (Bytes × ℕ × Reader)
unfolding varint_rounds
varint r = varint_rounds 10 [] 0 0 r
