-- ===== src/MySql/Params/Values.antt =====
-- Values of COM_STMT_EXECUTE parameters: `_take_stmt_bytes`, `_read_stmt_lenenc_bytes` and
-- `_decode_stmt_parameter`.
use ohmydb_proxy.Prelude.{
  Bool, Bytes, Error, Result, Text, [], decimal, elem, err, false, from_bytes_le, hex,
  if◌then◌else◌, index, int_text, leb, length, lit, ltb, mysql_protocol_error, none, not, ok,
  or_raise, pos, raise_if, slice, some, to_signed, upper_hex, ℕ, ℤ, ◌!=◌, ◌%◌, ◌*◌, ◌++◌, ◌+◌, ◌/◌,
  ◌==◌, ◌>>=◌, ◌>>◌, ◌∷◌,
}
use ohmydb_proxy.MySql.Constants.{mysql_type_float}
use ohmydb_proxy.MySql.Command.{}
use ohmydb_proxy.MySql.Lenenc.{lenenc_size}
use ohmydb_proxy.MySql.Params.Types.{
  MySqlParameterType, float_types, integer_size, string_types, uninspectable_error, unsigned_error,
}

-- `int | float | bytes | None`; a float stands as the bytes that it was unpacked from.
pub data Value : Type 0 where
  null : Value
  integer : ℤ → Value
  float : Bytes → Value
  raw_bytes : Bytes → Value

pub record MySqlDecodedParameter : Type 0 where
  pub type_metadata : MySqlParameterType
  pub value : Value
  pub sql_literal : Text

unfoldable pub truncated_error : ℕ → Error
truncated_error i =
    mysql_protocol_error (lit "COM_STMT_EXECUTE parameter " ++ (decimal i ++ lit " is truncated"))

unfoldable pub take_stmt_bytes : Bytes → ℕ → ℕ → ℕ → Result (Bytes × ℕ)
unfolding truncated_error
take_stmt_bytes payload offset size i = do
  raise_if (ltb (length payload) (offset + size)) (truncated_error i)
  ok (slice payload offset (offset + size), offset + size)

-- The size that a marker gives, or that the bytes behind it hold, and the offset behind that.
unfoldable pub read_stmt_lenenc_size : Bytes → ℕ → ℕ → ℕ → Result (ℕ × ℕ)
unfolding take_stmt_bytes lenenc_size
read_stmt_lenenc_size payload offset marker i = if ltb marker 0xfb then ok (marker, offset) else (do
  width ← or_raise (lenenc_size marker) (
      mysql_protocol_error (
        lit "COM_STMT_EXECUTE length-encoded parameter cannot use marker 0x"
        ++ (upper_hex marker ++ (lit " for parameter " ++ decimal i))))
  (raw_size, end) ← take_stmt_bytes payload offset width i
  ok (from_bytes_le raw_size, end))

unfoldable pub read_stmt_lenenc_bytes : Bytes → ℕ → ℕ → Result (Bytes × ℕ)
unfolding truncated_error
read_stmt_lenenc_bytes payload offset i = do
  raise_if (leb (length payload) offset) (truncated_error i)
  marker ← index payload offset
  (size, offset') ← read_stmt_lenenc_size payload (offset + 1) marker i
  take_stmt_bytes payload offset' size i

-- math.isfinite of the IEEE 754 number whose little-endian bytes these are: an exponent of ones
-- is an infinity or a NaN.
unfoldable pub is_finite : Bytes → Bool
is_finite (_ ∷ _ ∷ b2 ∷ b3 ∷ []) = b3 % 128 * 2 + b2 / 128 != 255
is_finite (_ ∷ _ ∷ _ ∷ _ ∷ _ ∷ _ ∷ b6 ∷ b7 ∷ []) = b7 % 128 * 16 + b6 / 16 != 2047
is_finite _ = false

unfoldable pub decode_integer :
    Bytes → ℕ → ℕ → ℕ → MySqlParameterType → Result (MySqlDecodedParameter × ℕ)
unfolding take_stmt_bytes
decode_integer payload offset size i type_metadata = do
  (raw, end) ← take_stmt_bytes payload offset size i
  let value =
      if type_metadata.unsigned
      then pos (from_bytes_le raw)
      else to_signed (8 * size) (from_bytes_le raw)
  ok (
    record { type_metadata = type_metadata; value = integer value; sql_literal = int_text value },
    end,
  )

unfoldable pub decode_string :
    Bytes → ℕ → ℕ → MySqlParameterType → Result (MySqlDecodedParameter × ℕ)
decode_string payload offset i type_metadata = do
  (value, end) ← read_stmt_lenenc_bytes payload offset i
  ok (
    record {
      type_metadata = type_metadata;
      value = raw_bytes value;
      sql_literal = lit "X'" ++ (hex value ++ lit "'");
    },
    end,
  )

-- `float_repr` is Python's `repr` of the float that `struct.unpack` reads from such bytes.
module _ (float_repr : Bytes → Text) where
  unfoldable pub decode_float :
      Bytes → ℕ → ℕ → MySqlParameterType → Result (MySqlDecodedParameter × ℕ)
  unfolding take_stmt_bytes is_finite
  decode_float payload offset i type_metadata = do
    (raw, end) ←
        take_stmt_bytes payload offset
          (if type_metadata.type_code == mysql_type_float then 4 else 8) i
    raise_if (not (is_finite raw)) (
        mysql_protocol_error
          (lit "COM_STMT_EXECUTE floating-point parameter " ++ (decimal i ++ lit " is not finite")))
    ok (
      record { type_metadata = type_metadata; value = float raw; sql_literal = float_repr raw },
      end,
    )

  -- The branch for a type that is no integer.
  unfoldable pub decode_other :
      Bytes → ℕ → ℕ → MySqlParameterType → Result (MySqlDecodedParameter × ℕ)
  unfolding unsigned_error uninspectable_error
  decode_other payload offset i type_metadata = do
    raise_if type_metadata.unsigned (unsigned_error i)
    if elem type_metadata.type_code float_types
        then decode_float payload offset i type_metadata
        else if elem type_metadata.type_code string_types
        then decode_string payload offset i type_metadata
        else err (uninspectable_error i type_metadata.type_code)

  unfoldable pub decode_stmt_parameter :
      Bytes → ℕ → ℕ → MySqlParameterType → Result (MySqlDecodedParameter × ℕ)
  unfolding integer_size
  decode_stmt_parameter payload offset i type_metadata =
      elim (integer_size type_metadata.type_code) [
        | some size ↦ decode_integer payload offset size i type_metadata
        | none ↦ decode_other payload offset i type_metadata
      ]
