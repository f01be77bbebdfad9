-- ===== src/Varint/Rewrite.antt =====
-- Replacing the varint at a position, and the lengths of encodings.
use bee_rpc_over_grpc_py.Prelude.{
  ℕ, zero, suc, ◌+◌, ◌/◌, ◌%◌, ◌≤◌, ◌<◌, ◌≡◌, refl, sym, ap, ◌++◌, List, [], ◌∷◌, some, length,
  drop, take-length-append, drop-length-append, arith,
}
use bee_rpc_over_grpc_py.Prelude.Bits.{top_bit}
use bee_rpc_over_grpc_py.Prelude.Order.{lt_wf}
use native.Mathlib.Nat.{zero-add, suc-add}
use bee_rpc_over_grpc_py.Varint.{Bytes, encode_bytes, original_varint_length, set_varint}
use bee_rpc_over_grpc_py.Prelude.{Bool-cases, inl, inr, ltb}
use bee_rpc_over_grpc_py.Varint.Groups.{groups, encode_bytes-groups, set_bytes_loop-groups}

-- A varint, which may be longer than its value needs: the last byte is below 128, and the others are not.
pub data IsVarint : Bytes → Type 0 where
  last : (byte : ℕ) → byte < 128 → IsVarint (byte ∷ [])
  more :
      {rest : Bytes} (byte : ℕ) → 128 ≤ byte → byte < 256 → IsVarint rest → IsVarint (byte ∷ rest)

pub IsVarint-nonempty : {old : Bytes} → IsVarint old → 0 < length old
IsVarint-nonempty (last byte low) = omega arith
IsVarint-nonempty (more {rest} byte high bound v) = omega arith

original_varint_length-IsVarint :
    {old : Bytes} (rest : Bytes)
    → IsVarint old
    → original_varint_length (old ++ rest) ≡ some (length old)
unfolding original_varint_length
original_varint_length-IsVarint rest (last byte low) =
    ground (arith, top_bit byte (omega (arith, low)))
original_varint_length-IsVarint rest (more byte high bound v) =
    ground (arith, top_bit byte bound, original_varint_length-IsVarint rest v)

groups-IsVarint : (k n : ℕ) → n ≤ k → IsVarint (groups k n)
unfolding groups
groups-IsVarint zero n h = last n (omega (arith, h))
groups-IsVarint (suc k) n h = elim (Bool-cases (ltb n 128)) [
  | inl low ↦ rw low (last n (ground (arith, low)))
  | inr high ↦ rw high (
      more (n % 128 + 128) (omega arith) (omega arith)
        (groups-IsVarint k (n / 128) (ground (arith, h, high))))
]

pub encode_bytes-IsVarint : (n : ℕ) → IsVarint (encode_bytes n)
encode_bytes-IsVarint n = rw (encode_bytes-groups n) (groups-IsVarint n n (omega arith))

drop-add {ℓ} : {A : Type ℓ} (a b : ℕ) (xs : List A) → drop (a + b) xs ≡ drop b (drop a xs)
drop-add zero b xs = ap (λ (t : ℕ). drop t xs) (zero-add b)
drop-add (suc a) b xs = rw (suc-add a b) (drop-add_suc a b xs (drop-add a b))
  where
    drop-nil : {A : Type ℓ} (b : ℕ) → drop {A = A} b [] ≡ []
    drop-nil zero = refl
    drop-nil (suc b) = refl

    drop-add_suc :
        {A : Type ℓ} (a b : ℕ) (xs : List A)
        → ((ys : List A) → drop (a + b) ys ≡ drop b (drop a ys))
        → drop (suc (a + b)) xs ≡ drop b (drop (suc a) xs)
    drop-add_suc a b [] ih = sym (drop-nil b)
    drop-add_suc a b (x ∷ xs) ih = ih xs

-- What follows the varint at the position is what `set_varint_value` keeps behind the new one.
drop-front :
    (front old rest : Bytes) → drop (length front + length old) (front ++ (old ++ rest)) ≡ rest
drop-front front old rest =
    rw (drop-add (length front) (length old) (front ++ (old ++ rest)))
      (rw (drop-length-append front (old ++ rest)) (drop-length-append old rest))

-- `set_varint_value` puts the encoding of the new value in the place of the old varint, and keeps all
-- bytes before and behind it, also where the two differ in length.
pub set_varint-IsVarint :
    (front rest : Bytes) {old : Bytes} (new : ℕ)
    → IsVarint old
    → set_varint (length front) (front ++ (old ++ rest)) new
      ≡ some (front ++ (encode_bytes new ++ rest))
unfolding set_varint
set_varint-IsVarint front rest {old} new v = rw (
  drop-length-append front (old ++ rest),
  original_varint_length-IsVarint rest v,
  drop-front front old rest,
  take-length-append front (old ++ rest),
  set_bytes_loop-groups new [] new (lt_wf.apply new) (omega arith),
  ← encode_bytes-groups new,
)
