-- ===== src/Varint/Groups.antt =====
-- What the two encoding loops write, as a recursion on a bound.
use Prim.Native.Nat.{bit_or}
use mathlib.Core.WellFounded.{Acc}
use bee_rpc_over_grpc_py.Prelude.{
  ℕ, zero, suc, ◌+◌, ◌/◌, ◌%◌, ◌^◌, ◌≤◌, ◌<◌, ◌≡◌, ◌++◌, [], ◌∷◌, append_assoc, All, arith, ltb,
  if◌then◌else◌,
}
use bee_rpc_over_grpc_py.Prelude.Bits.{set_top_bit}
use bee_rpc_over_grpc_py.Prelude.Order.{lt_wf}
use bee_rpc_over_grpc_py.Varint.{Bytes, IsByte, encode_loop, encode_bytes, set_bytes_loop}

-- The groups of seven bits of `n`, lowest first, for `n` at most the first argument.
unfoldable pub groups : ℕ → ℕ → Bytes
groups zero n = n ∷ []
groups (suc k) n =
    let rest = groups k (n / 128) in if ltb n 128 then n ∷ [] else (n % 128 + 128) ∷ rest

inner_group : (n : ℕ) → bit_or (n % 2 ^ 7) 0x80 ≡ n % 128 + 128
inner_group n = set_top_bit (n % 128) (omega arith)

encode_loop-groups :
    (k : ℕ) (buf : Bytes) (n : ℕ) (w : Acc ◌<◌ n) → n ≤ k → encode_loop buf n w ≡ buf ++ groups k n
unfolding encode_loop groups
encode_loop-groups zero buf n (Acc.intro _ smaller) h = grind arith
encode_loop-groups (suc k) buf n (Acc.intro _ smaller) h = grind (
  arith,
  inner_group n,
  λ (w : Acc ◌<◌ (n / 128)).
      encode_loop-groups k (buf ++ ((n % 128 + 128) ∷ [])) (n / 128) w (omega arith),
  append_assoc buf ((n % 128 + 128) ∷ []) (groups k (n / 128)),
)

pub encode_bytes-groups : (n : ℕ) → encode_bytes n ≡ groups n n
unfolding encode_bytes
encode_bytes-groups n = encode_loop-groups n [] n (lt_wf.apply n) (omega arith)

pub set_bytes_loop-groups :
    (k : ℕ) (buf : Bytes) (n : ℕ) (w : Acc ◌<◌ n)
    → n ≤ k
    → set_bytes_loop buf n w ≡ buf ++ groups k n
unfolding set_bytes_loop groups
set_bytes_loop-groups zero buf n (Acc.intro _ smaller) h = grind arith
set_bytes_loop-groups (suc k) buf n (Acc.intro _ smaller) h = grind (
  arith,
  inner_group n,
  λ (w : Acc ◌<◌ (n / 128)).
      set_bytes_loop-groups k (buf ++ ((n % 128 + 128) ∷ [])) (n / 128) w (omega arith),
  append_assoc buf ((n % 128 + 128) ∷ []) (groups k (n / 128)),
)

pub groups-IsByte : (k n : ℕ) → n ≤ k → All IsByte (groups k n)
unfolding groups
groups-IsByte zero n h = omega arith
groups-IsByte (suc k) n h = ground (arith, groups-IsByte k (n / 128) (omega arith))
