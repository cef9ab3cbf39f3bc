-- ===== src/MySql/Params.antt =====
-- `parse_stmt_execute_parameters` of protocol.py.
pub mod Types
pub mod Values
pub mod Total
pub mod Literals
pub mod Inert
pub mod ByteValues
use ohmydb_proxy.Prelude.{
  Bool, Bytes, List, Option, Result, Text, [], bit_and, decimal, elem, err, false, if◌then◌else◌,
  index, is_empty, length, lit, ltb, mysql_protocol_error, not, ok, or_raise, raise_if, suc, take,
  true, upper_hex, zero, ℕ, ◌!=◌, ◌%◌, ◌*◌, ◌++◌, ◌+◌, ◌-◌, ◌/◌, ◌==◌, ◌>>=◌, ◌>>◌, ◌^◌, ◌||◌, ◌∷◌,
}
use ohmydb_proxy.MySql.Constants.{mysql_type_null, mysql_unsigned_flag}
use ohmydb_proxy.MySql.Command.{MySqlStmtExecute, mysql_error}
use ohmydb_proxy.MySql.Params.Types.{MySqlParameterType, validate_stmt_parameter_type}
use ohmydb_proxy.MySql.Params.Values.{MySqlDecodedParameter, decode_stmt_parameter, null}
use ohmydb_proxy.MySql.Response.{has_flag}

pub record MySqlStmtExecuteParameters : Type 0 where
  pub null_bitmap : Bytes
  pub new_params_bound : Bool
  pub parameter_types : List MySqlParameterType
  pub parameters : List MySqlDecodedParameter

-- `null_bitmap[-1] & (~((1 << remaining_bits) - 1) & 0xFF)`, for remaining_bits in 1 to 7.
unfoldable pub check_last_bits : Bytes → ℕ → Result (Unit {0})
check_last_bits null_bitmap remaining_bits = if remaining_bits == 0 then ok tt else (do
  last ← index null_bitmap (length null_bitmap - 1)
  raise_if (has_flag last (256 - 2 ^ remaining_bits))
      (mysql_error "COM_STMT_EXECUTE NULL bitmap sets out-of-range parameter bits"))

-- The loop over `range(parameter_count)`, with `count` rounds left, that reads the types.
unfoldable pub read_types : Bytes → ℕ → ℕ → ℕ → Result (List MySqlParameterType)
read_types payload offset i zero = ok []
read_types payload offset i (suc count) = do
  type_code ← index payload (offset + i * 2)
  flags ← index payload (offset + i * 2 + 1)
  raise_if (flags - bit_and flags mysql_unsigned_flag != 0) (
      mysql_protocol_error (
        lit "COM_STMT_EXECUTE parameter type metadata contains unsupported flags for parameter "
        ++ decimal i))
  rest ← read_types payload offset (i + 1) count
  ok (record { type_code = type_code; unsigned = has_flag flags mysql_unsigned_flag } ∷ rest)

-- The types that the payload brings, or those of an earlier execution, and the offset behind them.
unfoldable pub parameter_types_of :
    Bytes → ℕ → Bool → ℕ → Option (List MySqlParameterType) → Result (List MySqlParameterType × ℕ)
parameter_types_of payload offset true parameter_count previous_types = do
  raise_if (ltb (length payload) (offset + parameter_count * 2))
      (mysql_error "COM_STMT_EXECUTE parameter type metadata is truncated")
  types ← read_types payload offset 0 parameter_count
  ok (types, offset + parameter_count * 2)
parameter_types_of payload offset false parameter_count previous_types = do
  types ←
      or_raise previous_types
        (mysql_error "COM_STMT_EXECUTE reuses parameter types before metadata has been registered")
  raise_if (length types != parameter_count) (
      mysql_error
        "Stored COM_STMT_EXECUTE parameter metadata count does not match the prepared statement")
  ok (types, offset)

module _ (float_repr : Bytes → Text) where
  -- One parameter: NULL takes no bytes.
  unfoldable pub read_parameter :
      Bytes → Bytes → ℕ → ℕ → MySqlParameterType → Result (MySqlDecodedParameter × ℕ)
  read_parameter payload null_bitmap i offset type_metadata = do
    validate_stmt_parameter_type i type_metadata
    nulls ← index null_bitmap (i / 8)
    if has_flag nulls (2 ^ (i % 8)) || type_metadata.type_code == mysql_type_null
        then ok (
          record { type_metadata = type_metadata; value = null; sql_literal = lit "NULL" },
          offset,
        )
        else decode_stmt_parameter float_repr payload offset i type_metadata

  -- The loop over the types, from the parameter `i` on.
  unfoldable pub read_parameters :
      Bytes → Bytes → ℕ → ℕ → List MySqlParameterType → Result (List MySqlDecodedParameter × ℕ)
  read_parameters payload null_bitmap i offset [] = ok ([], offset)
  read_parameters payload null_bitmap i offset (type_metadata ∷ types) = do
    (parameter, offset') ← read_parameter payload null_bitmap i offset type_metadata
    (parameters, end) ← read_parameters payload null_bitmap (i + 1) offset' types
    ok (parameter ∷ parameters, end)

  -- The part for a positive `parameter_count`.
  unfoldable pub parse_parameters :
      Bytes → ℕ → Option (List MySqlParameterType) → Result MySqlStmtExecuteParameters
  parse_parameters payload parameter_count previous_types = do
    let null_bitmap_size = (parameter_count + 7) / 8
    raise_if (ltb (length payload) (null_bitmap_size + 1))
        (mysql_error "COM_STMT_EXECUTE parameter metadata is truncated")
    let null_bitmap = take null_bitmap_size payload
    check_last_bits null_bitmap (parameter_count % 8)
    new_params_bound_flag ← index payload null_bitmap_size
    raise_if (not (elem new_params_bound_flag (0 ∷ 1 ∷ [])))
        (mysql_error "COM_STMT_EXECUTE new_params_bound_flag must be 0 or 1")
    let new_params_bound = new_params_bound_flag != 0
    (types, offset) ←
        parameter_types_of payload (null_bitmap_size + 1) new_params_bound parameter_count
          previous_types
    (parameters, end) ← read_parameters payload null_bitmap 0 offset types
    raise_if (end != length payload)
        (mysql_error "COM_STMT_EXECUTE parameter payload contains trailing data")
    ok (record {
      null_bitmap = null_bitmap;
      new_params_bound = new_params_bound;
      parameter_types = types;
      parameters = parameters;
    })

  -- The parameter count is a natural number here, so the test `parameter_count < 0` never raises.
  unfoldable pub parse_stmt_execute_parameters :
      MySqlStmtExecute → ℕ → Option (List MySqlParameterType) → Result MySqlStmtExecuteParameters
  parse_stmt_execute_parameters execution parameter_count previous_types = do
    raise_if (execution.iteration_count != 1)
        (mysql_error "COM_STMT_EXECUTE iteration count must be 1")
    raise_if (not (elem execution.flags (0 ∷ 1 ∷ 2 ∷ 4 ∷ []))) (
        mysql_protocol_error (
          lit "COM_STMT_EXECUTE contains unsupported cursor flags 0x" ++ upper_hex execution.flags))
    if parameter_count == 0
        then (if is_empty execution.parameter_payload
            then ok (record {
              null_bitmap = [];
              new_params_bound = false;
              parameter_types = [];
              parameters = [];
            })
            else err (mysql_error "COM_STMT_EXECUTE without parameters contains trailing data"))
        else parse_parameters execution.parameter_payload parameter_count previous_types
