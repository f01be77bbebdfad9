-- ===== src/ChunkReader/Varints.antt =====
-- The varints that the reader reads.
use Prim.Native.Nat.{bit_and}
use mathlib.Core.Path.{subst}
use native.Mathlib.Nat.{pow-le-pow_right}
use bee_rpc_over_grpc_py.Prelude.{
  ℕ, zero, suc, ◌+◌, ◌*◌, ◌%◌, ◌^◌, ◌≤◌, ◌<◌, ◌≡◌, refl, sym, ◌∙◌, true, false, [], ◌∷◌, ◌++◌,
  append_assoc, length, length-append, All, ◌==◌, arith, Bool-cases, inl, inr,
}
use bee_rpc_over_grpc_py.Prelude.Bits.{low_bits, bit_or-shifted}
use bee_rpc_over_grpc_py.Outcome.{ok, bind-eq-ok, ok_injective}
use bee_rpc_over_grpc_py.Varint.{Bytes, IsByte, add_group, varint_loop}
use bee_rpc_over_grpc_py.Varint.RoundTrip.{group_fits}
use bee_rpc_over_grpc_py.ChunkReader.{Reader, read, first_byte, varint_rounds, varint}
use bee_rpc_over_grpc_py.ChunkReader.Stream.{Takes, Takes-append, read-Takes}

-- `n` is the number that the bytes `new` continue `value` with.
record Number (new : Bytes) (value shift n : ℕ) : Type 0 where
  pub reads : varint_loop new value shift ≡ n
  pub fits : All IsByte new → value < 2 ^ shift → n < 2 ^ (shift + 7 * length new)

group_bound : (v s b : ℕ) → b < 256 → v < 2 ^ s → add_group v b s < 2 ^ (s + 7)
group_bound v s b byte h =
    rw (low_bits b byte, bit_or-shifted s v (b % 128) h) (group_fits (b % 128) v s (omega arith) h)

Number-last : (b v s : ℕ) → (bit_and b 0x80 == 0) ≡ true → Number (b ∷ []) v s (add_group v b s)
unfolding varint_loop
Number-last b v s e = record { reads = rw e; fits = λ bytes h. group_bound v s b bytes.0 h }

Number-more :
    (b v s n : ℕ) (new : Bytes)
    → (bit_and b 0x80 == 0) ≡ false
    → Number new (add_group v b s) (s + 7) n
    → Number (b ∷ new) v s n
unfolding varint_loop
Number-more b v s n new e h = record {
  reads = rw e h.reads;
  fits = λ bytes lt.
      let bound = h.fits bytes.1 (group_bound v s b bytes.0 lt) in
      subst (λ k. n < 2 ^ k) (omega arith) bound;
}

-- What the loop of `varint` has done when it returns.
Reads : ℕ → Bytes → ℕ → ℕ → Reader → Bytes × ℕ × Reader → Type 0
Reads rounds raw value shift r (raw', n, r') =
    (new : Bytes) × (raw' ≡ raw ++ new)
    × (0 < length new)
    × (length new ≤ rounds)
    × Takes r new r'
    × Number new value shift n

one_byte : (bs : Bytes) → length bs ≡ 1 → bs ≡ first_byte bs ∷ []
one_byte [] h = absurd (omega (arith, h))
one_byte (b ∷ []) h = refl
one_byte (b ∷ c ∷ bs) h = absurd (omega (arith, h))

varint_rounds-Reads :
    (rounds : ℕ) (raw : Bytes) (value shift : ℕ) (r : Reader) (out : Bytes × ℕ × Reader)
    → varint_rounds rounds raw value shift r ≡ ok out
    → Reads rounds raw value shift r out
unfolding varint_rounds Reads
varint_rounds-Reads zero raw value shift r out h = cc
varint_rounds-Reads (suc rounds) raw value shift r out h =
    let ((byte, r1), first, h1) = bind-eq-ok (read 1 r) _ out h in
    let (size, taken) = read-Takes 1 r byte r1 first in
    let single = one_byte byte size in
    elim (Bool-cases (bit_and (first_byte byte) 0x80 == 0)) [
      | inl last ↦
          subst (λ q. Reads (suc rounds) raw value shift r q) (ok_injective (rw last at h1))
            (
              byte,
              refl,
              omega (arith, size),
              omega (arith, size),
              taken,
              subst (λ bs. Number bs value shift (add_group value (first_byte byte) shift))
                  (sym single) (Number-last (first_byte byte) value shift last),
            )
      | inr more ↦
          let (new, same, some_byte, few, later, number) =
            varint_rounds-Reads rounds (raw ++ byte) _ (shift + 7) r1 out (rw more at h1) in
          (
            byte ++ new,
            same ∙ append_assoc raw byte new,
            omega (arith, length-append byte new, size),
            omega (arith, length-append byte new, size, few),
            Takes-append r r1 out.2 byte new taken later,
            subst (λ bs. Number (bs ++ new) value shift out.1) (sym single)
                (Number-more (first_byte byte) value shift out.1 new more number),
          )
    ]

-- The bytes that a varint was read from are the next ones of the stream.
pub varint-Takes :
    (r : Reader) (raw : Bytes) (n : ℕ) (r' : Reader)
    → varint r ≡ ok (raw, n, r')
    → (0 < length raw) × Takes r raw r'
unfolding varint Reads
varint-Takes r raw n r' h =
    let (new, same, some_byte, few, taken, number) =
      varint_rounds-Reads 10 [] 0 0 r (raw, n, r') h in
    rw same (some_byte, taken)

-- Where what `varint` returns as raw consists of bytes, it is ten bytes at most, the number is below
-- 2 ^ 70, and the loop of `get_varint_at_position` reads the same number from them.
pub varint_bounds :
    (r : Reader) (raw : Bytes) (n : ℕ) (r' : Reader)
    → varint r ≡ ok (raw, n, r')
    → All IsByte raw
    → (length raw ≤ 10) × (n < 2 ^ 70) × (varint_loop raw 0 0 ≡ n)
unfolding varint Reads
varint_bounds r raw n r' h bytes =
    let (new, same, some_byte, few, taken, number) =
      varint_rounds-Reads 10 [] 0 0 r (raw, n, r') h in
    let bound = number.fits (rw same at bytes) (omega arith) in
    let most : 2 ^ (0 + 7 * length new) ≤ 2 ^ 70 =
      pow-le-pow_right {n = 2} (omega arith) {i = 0 + 7 * length new} {j = 70}
        (omega (arith, few)) in
    rw same (few, omega (arith, bound, most), number.reads)
