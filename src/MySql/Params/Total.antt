-- ===== src/MySql/Params/Total.antt =====
-- `parse_stmt_execute_parameters` never reads past the payload or the NULL bitmap: whatever the
-- client sends, its only exception is MySqlProtocolError.
use ohmydb_proxy.Prelude.{
  Bool, Bool-cases, Bytes, Error, List, OnlyMySqlErrors, Option, Result, Result-cases, Text, [],
  arith, elem, err, false, get_elem?-none, if◌then◌else◌, index_ok, inl, inr, is_mysql_error,
  length, length-take, ltb, not, ok, raise_if, suc, take, true, zero, ℕ, ◌!=◌, ◌%◌, ◌&&◌, ◌*◌, ◌+◌,
  ◌-◌, ◌/◌, ◌<◌, ◌==◌, ◌>>◌, ◌∷◌, ◌≡◌, ◌≤◌,
}
use ohmydb_proxy.MySql.Constants.{}
use ohmydb_proxy.MySql.Command.{MySqlStmtExecute}
use ohmydb_proxy.MySql.Lenenc.{}
use ohmydb_proxy.MySql.Params.{
  check_last_bits, parameter_types_of, parse_parameters, parse_stmt_execute_parameters,
  read_parameter, read_parameters, read_types,
}
use ohmydb_proxy.MySql.Params.Types.{
  MySqlParameterType, integer_types, scalar_types, uninspectable_error, unsigned_error,
  validate_stmt_parameter_type,
}
use ohmydb_proxy.MySql.Params.Values.{
  decode_float, decode_integer, decode_other, decode_stmt_parameter, decode_string,
  read_stmt_lenenc_bytes, read_stmt_lenenc_size, take_stmt_bytes,
}

read_stmt_lenenc_bytes-OnlyMySqlErrors :
    (payload : Bytes) (offset i : ℕ) → OnlyMySqlErrors (read_stmt_lenenc_bytes payload offset i)
unfolding read_stmt_lenenc_bytes read_stmt_lenenc_size take_stmt_bytes
read_stmt_lenenc_bytes-OnlyMySqlErrors payload offset i e h =
    ground (arith, get_elem?-none payload offset)

validate_stmt_parameter_type-OnlyMySqlErrors :
    (i : ℕ) (m : MySqlParameterType) → OnlyMySqlErrors (validate_stmt_parameter_type i m)
unfolding validate_stmt_parameter_type
validate_stmt_parameter_type-OnlyMySqlErrors i m e h =
    tests (m.unsigned && not (elem m.type_code integer_types)) (elem m.type_code scalar_types) h
  where
    tests :
        (a b : Bool)
        → ◌≡◌ {A = Result (Unit {0})}
            (raise_if a (unsigned_error i)
              >> (if b then ok tt else err (uninspectable_error i m.type_code)))
            (err e)
        → is_mysql_error e ≡ true
    tests a b h = ground arith

module _ (float_repr : Bytes → Text) where
  decode_other-OnlyMySqlErrors :
      (payload : Bytes) (offset i : ℕ) (m : MySqlParameterType)
      → OnlyMySqlErrors (decode_other float_repr payload offset i m)
  unfolding decode_other decode_float decode_string
  decode_other-OnlyMySqlErrors payload offset i m e h =
      ground (arith, read_stmt_lenenc_bytes-OnlyMySqlErrors payload offset i e)

  decode_stmt_parameter-OnlyMySqlErrors :
      (payload : Bytes) (offset i : ℕ) (m : MySqlParameterType)
      → OnlyMySqlErrors (decode_stmt_parameter float_repr payload offset i m)
  unfolding decode_stmt_parameter decode_integer
  decode_stmt_parameter-OnlyMySqlErrors payload offset i m e h =
      ground (arith, decode_other-OnlyMySqlErrors payload offset i m e)

  read_parameter-OnlyMySqlErrors :
      (payload null_bitmap : Bytes) (i offset : ℕ) (m : MySqlParameterType)
      → i < 8 * length null_bitmap
      → OnlyMySqlErrors (read_parameter float_repr payload null_bitmap i offset m)
  unfolding read_parameter
  read_parameter-OnlyMySqlErrors payload null_bitmap i offset m b e h = ground (
    arith,
    get_elem?-none null_bitmap (i / 8),
    validate_stmt_parameter_type-OnlyMySqlErrors i m e,
    decode_stmt_parameter-OnlyMySqlErrors payload offset i m e,
  )

  read_parameters-OnlyMySqlErrors :
      (payload null_bitmap : Bytes) (i offset : ℕ) (types : List MySqlParameterType)
      → i + length types ≤ 8 * length null_bitmap
      → OnlyMySqlErrors (read_parameters float_repr payload null_bitmap i offset types)
  unfolding read_parameters
  read_parameters-OnlyMySqlErrors payload null_bitmap i offset [] b e h = cc
  read_parameters-OnlyMySqlErrors payload null_bitmap i offset (m ∷ ms) b e h =
      elim (Result-cases (read_parameter float_repr payload null_bitmap i offset m)) [
        | inr (x, q) ↦
            read_parameter-OnlyMySqlErrors payload null_bitmap i offset m (omega arith) e
              (cc (q, rw q at h))
        | inl ((parameter, offset'), q) ↦ ground (
          arith,
          q,
          read_parameters-OnlyMySqlErrors payload null_bitmap (i + 1) offset' ms (omega arith) e,
        )
      ]

read_types-OnlyMySqlErrors :
    (payload : Bytes) (offset i count : ℕ)
    → offset + (i + count) * 2 ≤ length payload
    → OnlyMySqlErrors (read_types payload offset i count)
unfolding read_types
read_types-OnlyMySqlErrors payload offset i zero b e h = cc
read_types-OnlyMySqlErrors payload offset i (suc count) b e h = ground (
  arith,
  get_elem?-none payload (offset + i * 2),
  get_elem?-none payload (offset + i * 2 + 1),
  read_types-OnlyMySqlErrors payload offset (i + 1) count (omega arith) e,
)

check_last_bits-OnlyMySqlErrors :
    (null_bitmap : Bytes) (remaining_bits : ℕ)
    → 0 < length null_bitmap
    → OnlyMySqlErrors (check_last_bits null_bitmap remaining_bits)
unfolding check_last_bits
check_last_bits-OnlyMySqlErrors null_bitmap remaining_bits b e h =
    ground (arith, get_elem?-none null_bitmap (length null_bitmap - 1))

-- The types that were found are as many as the parameters, and no lookup fails on the way.
parameter_types_of-OnlyMySqlErrors :
    (payload : Bytes) (offset : ℕ) (bound : Bool) (count : ℕ)
    (previous : Option (List MySqlParameterType))
    → OnlyMySqlErrors (parameter_types_of payload offset bound count previous)
unfolding parameter_types_of
parameter_types_of-OnlyMySqlErrors payload offset true count previous e h =
    elim (Bool-cases (ltb (length payload) (offset + count * 2))) [
      | inl short ↦ ground (arith, short)
      | inr long ↦
          ground (arith, read_types-OnlyMySqlErrors payload offset 0 count (ground (arith, long)) e)
    ]
parameter_types_of-OnlyMySqlErrors payload offset false count previous e h = ground arith

read_types-length :
    (payload : Bytes) (offset i count : ℕ) {types : List MySqlParameterType}
    → read_types payload offset i count ≡ ok types
    → length types ≡ count
unfolding read_types
read_types-length payload offset i zero h = ground arith
read_types-length payload offset i (suc count) h =
    elim (Result-cases (read_types payload offset (i + 1) count)) [
      | inl (types, q) ↦ ground (arith, q, read_types-length payload offset (i + 1) count q)
      | inr (e, q) ↦ ground (arith, q)
    ]

pub parameter_types_of-length :
    (payload : Bytes) (offset : ℕ) (bound : Bool) (count : ℕ)
    (previous : Option (List MySqlParameterType)) {types : List MySqlParameterType} {end : ℕ}
    → parameter_types_of payload offset bound count previous ≡ ok (types, end)
    → length types ≡ count
unfolding parameter_types_of
parameter_types_of-length payload offset true count previous h =
    elim (Result-cases (read_types payload offset 0 count)) [
      | inl (types, q) ↦ ground (arith, q, read_types-length payload offset 0 count q)
      | inr (e, q) ↦ ground (arith, q)
    ]
parameter_types_of-length payload offset false count previous h = ground arith

module _ (float_repr : Bytes → Text) (payload : Bytes) (count : ℕ)
    (previous : Option (List MySqlParameterType)) where
  abbrev bitmap_size : ℕ
  bitmap_size = (count + 7) / 8

  abbrev bitmap : Bytes
  bitmap = take bitmap_size payload

  -- A payload that holds the bitmap and the flag behind it.
  parse_parameters_long :
      0 < count
      → ltb (length payload) (bitmap_size + 1) ≡ false
      → OnlyMySqlErrors (parse_parameters float_repr payload count previous)
  unfolding parse_parameters
  parse_parameters_long b long e h =
      let l : length bitmap ≡ bitmap_size = ground (arith, length-take bitmap_size payload) in
      let (flag, f) = index_ok payload bitmap_size (ground arith) in
      elim (Result-cases (check_last_bits bitmap (count % 8))) [
        | inr (x, q) ↦
            ground
              (arith, q, check_last_bits-OnlyMySqlErrors bitmap (count % 8) (omega (arith, l)) x q)
        | inl (u, q) ↦
            elim (Result-cases
              (parameter_types_of payload (bitmap_size + 1) (flag != 0) count previous)) [
                | inr (x, p) ↦ ground (
                  arith,
                  q,
                  f,
                  p,
                  parameter_types_of-OnlyMySqlErrors payload (bitmap_size + 1) (flag != 0) count
                      previous x p,
                )
                | inl ((types, offset), p) ↦
                    let n : length types ≡ count =
                      parameter_types_of-length payload (bitmap_size + 1) (flag != 0) count previous
                        p in
                    ground (
                      arith,
                      q,
                      f,
                      p,
                      read_parameters-OnlyMySqlErrors float_repr payload bitmap 0 offset types
                          (omega (arith, l, n)) e,
                    )
              ]
      ]

  parse_parameters-OnlyMySqlErrors :
      0 < count → OnlyMySqlErrors (parse_parameters float_repr payload count previous)
  parse_parameters-OnlyMySqlErrors b e h =
      elim (Bool-cases (ltb (length payload) (bitmap_size + 1))) [
        | inr long ↦ parse_parameters_long b long e h
        | inl short ↦ unfold parse_parameters in ground (arith, short)
      ]

-- The only exception of `parse_stmt_execute_parameters` is MySqlProtocolError, which the dispatcher
-- catches: whatever the payload, the parameter count and the stored types, no index is out of range.
pub parse_stmt_execute_parameters-OnlyMySqlErrors :
    (float_repr : Bytes → Text) (execution : MySqlStmtExecute) (count : ℕ)
    (previous : Option (List MySqlParameterType)) (e : Error)
    → parse_stmt_execute_parameters float_repr execution count previous ≡ err e
    → is_mysql_error e ≡ true
unfolding parse_stmt_execute_parameters
parse_stmt_execute_parameters-OnlyMySqlErrors float_repr execution count previous e h =
    elim (Bool-cases (count == 0)) [
      | inl none_expected ↦ ground (arith, none_expected)
      | inr some_expected ↦ ground (
        arith,
        some_expected,
        parse_parameters-OnlyMySqlErrors float_repr execution.parameter_payload count previous
            (ground arith) e,
      )
    ]
