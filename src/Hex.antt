-- ===== src/Hex.antt =====
-- `bytes.hex` and `bytes.fromhex`, by which block ids are turned into registry keys and back. A text
-- is the list of its character codes.
use bee_rpc_over_grpc_py.Prelude.{
  ℕ, ◌+◌, ◌-◌, ◌*◌, ◌/◌, ◌%◌, ◌<◌, ◌≡◌, refl, ap, Bool, ◌&&◌, ◌||◌, [], ◌∷◌, Option, none, some,
  All, arith, ltb, leb, ◌==◌, if◌then◌else◌,
}
use bee_rpc_over_grpc_py.Varint.{Bytes, IsByte}

hex_digit : ℕ → ℕ
hex_digit d = if ltb d 10 then d + 48 else d + 87

unfoldable pub hex : Bytes → Bytes
unfolding hex_digit
hex [] = []
hex (b ∷ bs) = hex_digit (b / 16) ∷ hex_digit (b % 16) ∷ hex bs

digit_value : ℕ → Option ℕ
digit_value c =
    if leb 48 c && leb c 57
    then some (c - 48)
    else if leb 97 c && leb c 102
    then some (c - 87)
    else if leb 65 c && leb c 70
    then some (c - 55)
    else none

is_space : ℕ → Bool
is_space c = (leb 9 c && leb c 13) || c == 32

abbrev push_byte : Option ℕ → Option ℕ → Option Bytes → Option Bytes
push_byte (some hi) (some lo) (some bs) = some ((hi * 16 + lo) ∷ bs)
push_byte _ _ _ = none

-- `fromhex` skips white space between bytes; `none` is its ValueError.
unfoldable pub from_hex : Bytes → Option Bytes
unfolding digit_value is_space
from_hex [] = some []
from_hex (c ∷ []) = if is_space c then some [] else none
from_hex (c ∷ d ∷ rest) =
    let skipped = from_hex (d ∷ rest) in
    let more = from_hex rest in
    if is_space c then skipped else push_byte (digit_value c) (digit_value d) more

digit_value-hex_digit : (d : ℕ) → d < 16 → digit_value (hex_digit d) ≡ some d
unfolding digit_value hex_digit
digit_value-hex_digit d h = ground arith

is_space-hex_digit : (d : ℕ) → d < 16 → is_space (hex_digit d) ≡ Bool.false
unfolding is_space hex_digit
is_space-hex_digit d h = ground arith

pub from_hex-hex : (bs : Bytes) → All IsByte bs → from_hex (hex bs) ≡ some bs
unfolding from_hex hex
from_hex-hex [] h = refl
from_hex-hex (b ∷ bs) h =
    rw
      (
        is_space-hex_digit (b / 16) (omega arith),
        digit_value-hex_digit (b / 16) (omega arith),
        digit_value-hex_digit (b % 16) (omega arith),
        from_hex-hex bs h.1,
      )
      (ap (λ (t : ℕ). some (t ∷ bs)) (omega arith))

hex_digit_injective : (c d : ℕ) → hex_digit c ≡ hex_digit d → c ≡ d
unfolding hex_digit
hex_digit_injective c d h = ground (arith, h)

pub hex_injective : (bs cs : Bytes) → hex bs ≡ hex cs → bs ≡ cs
unfolding hex
hex_injective [] [] h = refl
hex_injective [] (c ∷ cs) h = cc
hex_injective (b ∷ bs) [] h = cc
hex_injective (b ∷ bs) (c ∷ cs) h =
    let high = hex_digit_injective (b / 16) (c / 16) (cc) in
    let low = hex_digit_injective (b % 16) (c % 16) (cc) in
    let same : b ≡ c = omega (arith, high, low) in let more = hex_injective bs cs (cc) in cc
