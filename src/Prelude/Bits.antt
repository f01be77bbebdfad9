-- ===== src/Prelude/Bits.antt =====
-- The program's bit operations as arithmetic: its masks on one byte, each a table of at most 256
-- entries, and `|` with a number that is shifted past the other operand.
use Prim.Native.Nat.{
  ℕ, zero, suc, ◌+◌, ◌-◌, ◌*◌, ◌/◌, ◌%◌, ◌^◌, ◌≤◌, ◌<◌, max, bit_and, bit_or, digits,
  bit_or-bitwise,
}
use native.Mathlib.Nat.{pow-suc}
use mathlib.Core.Path.{◌≡◌, refl, sym, ap, ◌∙◌}
use mathlib.Core.Bool.{Bool, true, false}
use native.Mathlib.Omega.{arith}
use bee_rpc_over_grpc_py.Prelude.Tests.{◌==◌, if◌then◌else◌}

-- Two functions agree on the numbers below a bound.
agree : (f g : ℕ → ℕ) (bound : ℕ) → Bool
agree f g zero = true
agree f g (suc last) = let below = agree f g last in if f last == g last then below else false

agree-below : (f g : ℕ → ℕ) (bound b : ℕ) → agree f g bound ≡ true → b < bound → f b ≡ g b
unfolding agree
agree-below f g zero b checked lt = elim lt [ ]
agree-below f g (suc last) b checked lt = ground (arith, agree-below f g last b)

pub low_bits : (b : ℕ) → b < 256 → bit_and b 0x7f ≡ b % 128
unfolding agree
low_bits b lt = agree-below (λ x. bit_and x 0x7f) (λ x. x % 128) 256 b refl lt

pub top_bit : (b : ℕ) → b < 256 → bit_and b 0x80 ≡ b / 128 * 128
unfolding agree
top_bit b lt = agree-below (λ x. bit_and x 0x80) (λ x. x / 128 * 128) 256 b refl lt

pub set_top_bit : (b : ℕ) → b < 128 → bit_or b 0x80 ≡ b + 128
unfolding agree
set_top_bit b lt = agree-below (λ x. bit_or x 0x80) (λ x. x + 128) 128 b refl lt

-- `|` digit by digit, for at most `rounds` digits of `a`.
abbrev or_rounds : (a b rounds : ℕ) → ℕ
or_rounds a b rounds = digits (λ rest. rest) max rounds a b

one_more_round : (rounds a b : ℕ) → a ≤ rounds → or_rounds a b (suc rounds) ≡ or_rounds a b rounds
one_more_round zero zero b enough = refl
one_more_round zero (suc a) b enough = absurd (omega arith)
one_more_round (suc rounds) zero b enough = refl
one_more_round (suc rounds) (suc a) b enough =
    let halved = one_more_round rounds (suc a / 2) (b / 2) (omega arith) in omega (arith, halved)

more_rounds : (k a b : ℕ) → or_rounds a b (k + a) ≡ bit_or a b
more_rounds zero a b = ap (λ (t : ℕ). or_rounds a b t) (omega arith) ∙ sym (bit_or-bitwise a b)
more_rounds (suc k) a b =
    let count : suc k + a ≡ suc (k + a) = omega arith in
    ap (λ (t : ℕ). or_rounds a b t) count
    ∙ one_more_round (k + a) a b (omega arith)
    ∙ more_rounds k a b

pub zero-bit_or : (b : ℕ) → bit_or 0 b ≡ b
zero-bit_or b = bit_or-bitwise 0 b

-- The lowest digit by itself.
lowest_digit : (a b : ℕ) → bit_or a b ≡ bit_or (a / 2) (b / 2) * 2 + max (a % 2) (b % 2)
lowest_digit zero b = omega (arith, zero-bit_or b, zero-bit_or (b / 2))
lowest_digit (suc a) b =
    let half = suc a / 2 in
    let fewer : a - half + half ≡ a = omega arith in
    let rest =
      ap (λ (t : ℕ). or_rounds half (b / 2) t) (sym fewer) ∙ more_rounds (a - half) half (b / 2) in
    omega (arith, bit_or-bitwise (suc a) b, rest)

shifted_double : (b s : ℕ) → b * 2 ^ suc s ≡ b * 2 ^ s * 2
shifted_double b s = omega (arith, ap (λ (t : ℕ). b * t) (pow-suc 2 s))

-- `a | (b << s)` where `a` has no digit from `s` on.
pub bit_or-shifted : (s a b : ℕ) → a < 2 ^ s → bit_or a (b * 2 ^ s) ≡ a + b * 2 ^ s
bit_or-shifted zero zero b h = omega (arith, zero-bit_or (b * 2 ^ 0))
bit_or-shifted zero (suc a) b h = absurd (omega arith)
bit_or-shifted (suc s) a b h = omega (
  arith,
  shifted_double b s,
  pow-suc 2 s,
  lowest_digit a (b * 2 ^ suc s),
  ap (λ (t : ℕ). bit_or (a / 2) t) half,
  bit_or-shifted s (a / 2) b (omega (arith, pow-suc 2 s)),
)
  where
    half : b * 2 ^ suc s / 2 ≡ b * 2 ^ s
    half = omega (arith, shifted_double b s)
