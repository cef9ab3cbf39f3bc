-- ===== src/MySql/Params/Inert.antt =====
-- The shapes of the literals of decoded parameters.
use ohmydb_proxy.Prelude.{
  All, Bool-cases, Bytes, IsByte, Text, [], arith, hex, hex_digit, inl, inr, lit, ltb, refl, ℕ, ◌%◌,
  ◌++◌, ◌/◌, ◌<◌, ◌∷◌, ◌≡◌, ◌⊎◌,
}
use ohmydb_proxy.Prelude.Plain.{IsPlain, int_text-IsPlain}
use ohmydb_proxy.MySql.Constants.{}
use ohmydb_proxy.MySql.Command.{}
use ohmydb_proxy.MySql.Params.{}
use ohmydb_proxy.MySql.Params.Types.{}
use ohmydb_proxy.MySql.Params.Values.{MySqlDecodedParameter, Value, float, integer, null, raw_bytes}
use ohmydb_proxy.MySql.Params.Literals.{literal_of}

-- A literal without quotes, or a hexadecimal string literal.
abbrev pub IsInert : Text → Type 0
IsInert t =
    All IsPlain t ⊎ ((digits : Text) × (t ≡ lit "X'" ++ (digits ++ lit "'")) × All IsPlain digits)

hex_digit-IsPlain : (d : ℕ) → d < 16 → IsPlain (hex_digit d)
unfolding hex_digit
hex_digit-IsPlain d h = elim (Bool-cases (ltb d 10)) [
  | inl small ↦ rw small (ground (arith, small))
  | inr large ↦ rw large (ground (arith, large))
]

hex-IsPlain : (bs : Bytes) → All IsByte bs → All IsPlain (hex bs)
unfolding hex
hex-IsPlain [] h = tt
hex-IsPlain (b ∷ bs) h = (
  hex_digit-IsPlain (b / 16) (omega (arith, h.0)),
  (hex_digit-IsPlain (b % 16) (omega arith), hex-IsPlain bs h.1),
)

abbrev pub IsByteValue : Value → Type 0
IsByteValue (raw_bytes bs) = All IsByte bs
IsByteValue _ = Unit {0}

abbrev pub HasByteValue : MySqlDecodedParameter → Type 0
HasByteValue p = IsByteValue p.value

pub literal_of-IsInert :
    (float_repr : Bytes → Text) (v : Value)
    → ((raw : Bytes) → All IsPlain (float_repr raw))
    → IsByteValue v
    → IsInert (literal_of float_repr v)
literal_of-IsInert float_repr null f h = inl (unfold lit in (refl, (refl, (refl, (refl, tt)))))
literal_of-IsInert float_repr (integer n) f h = inl (int_text-IsPlain n)
literal_of-IsInert float_repr (float raw) f h = inl (f raw)
literal_of-IsInert float_repr (raw_bytes bs) f h = inr (hex bs, refl, hex-IsPlain bs h)
