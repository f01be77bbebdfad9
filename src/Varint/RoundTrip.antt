-- ===== src/Varint/RoundTrip.antt =====
-- Reading back what `encode_bytes` wrote, by each of the program's reading loops.
use native.Mathlib.Nat.{div-add-mod}
use native.Mathlib.Numerals.{towards_suc}
use bee_rpc_over_grpc_py.Prelude.{
  ℕ, zero, suc, ◌+◌, ◌*◌, ◌/◌, ◌%◌, ◌^◌, ◌≤◌, ◌<◌, ◌≡◌, ap, ◌++◌, ◌∷◌, some, length, All,
  drop-length-append, arith,
}
use bee_rpc_over_grpc_py.Prelude.Bits.{low_bits, top_bit, bit_or-shifted}
use bee_rpc_over_grpc_py.Varint.{
  Bytes, IsByte, encode_bytes, position_loop, get_position_length, varint_loop,
}
use bee_rpc_over_grpc_py.Varint.Groups.{groups, encode_bytes-groups, groups-IsByte}

shift_seven : (s : ℕ) → 2 ^ (s + 7) ≡ 128 * 2 ^ s
shift_seven s = simp towards_suc (omega arith)

-- The lowest group of `n` and the rest of it, both shifted by `s`.
split_group : (n s : ℕ) → n * 2 ^ s ≡ n % 128 * 2 ^ s + n / 128 * 2 ^ (s + 7)
split_group n s = omega (
  arith,
  ap (λ (t : ℕ). t * 2 ^ s) (div-add-mod n 128),
  ap (λ (t : ℕ). n / 128 * t) (shift_seven s),
)

-- A value below the shift stays below the next one.
pub group_fits : (g v s : ℕ) → g < 128 → v < 2 ^ s → v + g * 2 ^ s < 2 ^ (s + 7)
group_fits g v s hg hv = rw (shift_seven s) (grind arith)

module _ (rest : Bytes) where
  position_last :
      (n v s : ℕ) → n < 128 → v < 2 ^ s → position_loop (n ∷ rest) v s ≡ some (v + n * 2 ^ s)
  unfolding position_loop
  position_last n v s hn hv = ground (arith, low_bits n, top_bit n, bit_or-shifted s v n)

  position_inner :
      (g v s : ℕ) (more : Bytes)
      → g < 128
      → v < 2 ^ s
      → position_loop ((g + 128) ∷ more) v s ≡ position_loop more (v + g * 2 ^ s) (s + 7)
  unfolding position_loop
  position_inner g v s more hg hv =
      ground (arith, low_bits (g + 128), top_bit (g + 128), bit_or-shifted s v g)

  position_loop-groups :
      (k n v s : ℕ)
      → n ≤ k
      → v < 2 ^ s
      → position_loop (groups k n ++ rest) v s ≡ some (v + n * 2 ^ s)
  unfolding groups
  position_loop-groups zero n v s h hv = position_last n v s (omega arith) hv
  position_loop-groups (suc k) n v s h hv = ground (
    arith,
    position_last n v s,
    split_group n s,
    group_fits (n % 128) v s (omega arith) hv,
    position_inner (n % 128) v s (groups k (n / 128) ++ rest),
    position_loop-groups k (n / 128) (v + n % 128 * 2 ^ s) (s + 7) (omega arith),
  )

  varint_last : (n v s : ℕ) → n < 128 → v < 2 ^ s → varint_loop (n ∷ rest) v s ≡ v + n * 2 ^ s
  unfolding varint_loop
  varint_last n v s hn hv = ground (arith, low_bits n, top_bit n, bit_or-shifted s v n)

  varint_inner :
      (g v s : ℕ) (more : Bytes)
      → g < 128
      → v < 2 ^ s
      → varint_loop ((g + 128) ∷ more) v s ≡ varint_loop more (v + g * 2 ^ s) (s + 7)
  unfolding varint_loop
  varint_inner g v s more hg hv =
      ground (arith, low_bits (g + 128), top_bit (g + 128), bit_or-shifted s v g)

  varint_loop-groups :
      (k n v s : ℕ) → n ≤ k → v < 2 ^ s → varint_loop (groups k n ++ rest) v s ≡ v + n * 2 ^ s
  unfolding groups
  varint_loop-groups zero n v s h hv = varint_last n v s (omega arith) hv
  varint_loop-groups (suc k) n v s h hv = ground (
    arith,
    varint_last n v s,
    split_group n s,
    group_fits (n % 128) v s (omega arith) hv,
    varint_inner (n % 128) v s (groups k (n / 128) ++ rest),
    varint_loop-groups k (n / 128) (v + n % 128 * 2 ^ s) (s + 7) (omega arith),
  )

-- `get_position_length` returns `n` at the position where `encode_bytes n` stands, whatever
-- stands before and behind it.
pub get_position_length-encode_bytes :
    (front rest : Bytes) (n : ℕ)
    → get_position_length (length front) (front ++ (encode_bytes n ++ rest)) ≡ some n
unfolding get_position_length
get_position_length-encode_bytes front rest n =
    rw (drop-length-append front (encode_bytes n ++ rest), encode_bytes-groups n)
      (omega_some (position_loop-groups rest n n 0 0 (omega arith) (omega arith)))
  where
    omega_some :
        position_loop (groups n n ++ rest) 0 0 ≡ some (0 + n * 2 ^ 0)
        → position_loop (groups n n ++ rest) 0 0 ≡ some n
    omega_some h = ground arith

pub varint_loop-encode_bytes : (rest : Bytes) (n : ℕ) → varint_loop (encode_bytes n ++ rest) 0 0 ≡ n
varint_loop-encode_bytes rest n =
    rw (encode_bytes-groups n)
      (omega (arith, varint_loop-groups rest n n 0 0 (omega arith) (omega arith)))

-- `encode_bytes` writes bytes.
pub encode_bytes-IsByte : (n : ℕ) → All IsByte (encode_bytes n)
encode_bytes-IsByte n = rw (encode_bytes-groups n) (groups-IsByte n n (omega arith))
