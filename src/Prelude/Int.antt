-- ===== src/Prelude/Int.antt =====
-- Python's integers where they may be negative, hexadecimal digits, and signed byte orders.
use Prim.Native.Nat.{ℕ, ◌+◌, ◌-◌, ◌/◌, ◌%◌, ◌^◌}
use mathlib.Core.Path.{◌≡◌, refl}
use mathlib.Core.Bool.{Bool, true, false}
use mathlib.Core.List.{[], ◌∷◌}
use ohmydb_proxy.Prelude.Tests.{if◌then◌else◌, ltb}
use ohmydb_proxy.Prelude.Slices.{Bytes, Text, lit}
use ohmydb_proxy.Prelude.Decimal.{decimal}

-- `negsuc n` is -(n + 1).
pub data ℤ : Type 0 where
  pos : ℕ → ℤ
  negsuc : ℕ → ℤ

abbrev pub is_negative : ℤ → Bool
is_negative (pos n) = false
is_negative (negsuc n) = true

-- The integer whose two's complement of `bits` bits is `n`.
unfoldable pub to_signed : ℕ → ℕ → ℤ
to_signed bits n = if ltb n (2 ^ (bits - 1)) then pos n else negsuc (2 ^ bits - n - 1)

-- str(n)
unfoldable pub int_text : ℤ → Text
int_text (pos n) = decimal n
int_text (negsuc n) = b'-' ∷ decimal (n + 1)

unfoldable pub hex_digit : ℕ → ℕ
hex_digit d = if ltb d 10 then b'0' + d else b'a' + (d - 10)

-- bytes.hex()
unfoldable pub hex : Bytes → Text
unfolding hex_digit
hex [] = []
hex (b ∷ bs) = hex_digit (b / 16) ∷ hex_digit (b % 16) ∷ hex bs

unfoldable pub upper_hex_digit : ℕ → ℕ
upper_hex_digit d = if ltb d 10 then b'0' + d else b'A' + (d - 10)

-- f"{n:02X}" for n < 256
unfoldable pub upper_hex : ℕ → Text
unfolding upper_hex_digit
upper_hex n = upper_hex_digit (n / 16) ∷ upper_hex_digit (n % 16) ∷ []

int_text_runs :
    (int_text (to_signed 8 0xff) ≡ lit "-1")
    × (int_text (to_signed 16 0x8000) ≡ lit "-32768")
    × (hex (0x0a ∷ 0xff ∷ []) ≡ lit "0aff")
unfolding int_text to_signed decimal hex lit
int_text_runs = (refl, refl, refl)
