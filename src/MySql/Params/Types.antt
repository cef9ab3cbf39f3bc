-- ===== src/MySql/Params/Types.antt =====
-- Parameter types of COM_STMT_EXECUTE: `MySqlParameterType`, `_validate_stmt_parameter_type`.
use ohmydb_proxy.Prelude.{
  Bool, Error, List, Option, Result, Text, [], decimal, elem, err, if◌then◌else◌, lit,
  mysql_protocol_error, none, not, ok, raise_if, some, upper_hex, ℕ, ◌&&◌, ◌++◌, ◌==◌, ◌>>◌, ◌||◌,
  ◌∷◌,
}
use ohmydb_proxy.MySql.Constants.{
  mysql_type_bit, mysql_type_blob, mysql_type_date, mysql_type_datetime, mysql_type_datetime2,
  mysql_type_decimal, mysql_type_double, mysql_type_float, mysql_type_int24, mysql_type_long,
  mysql_type_long_blob, mysql_type_longlong, mysql_type_medium_blob, mysql_type_newdate,
  mysql_type_newdecimal, mysql_type_null, mysql_type_short, mysql_type_string, mysql_type_time,
  mysql_type_time2, mysql_type_timestamp, mysql_type_timestamp2, mysql_type_tiny,
  mysql_type_tiny_blob, mysql_type_var_string, mysql_type_varchar, mysql_type_year,
}

pub record MySqlParameterType : Type 0 where
  pub type_code : ℕ
  pub unsigned : Bool

-- `integer_sizes`: the width in bytes of an integer type.
unfoldable pub integer_size : ℕ → Option ℕ
integer_size type_code =
    if type_code == mysql_type_tiny
    then some 1
    else if type_code == mysql_type_short || type_code == mysql_type_year
    then some 2
    else if type_code == mysql_type_long || type_code == mysql_type_int24
    then some 4
    else if type_code == mysql_type_longlong
    then some 8
    else none

abbrev pub integer_types : List ℕ
integer_types =
    mysql_type_tiny ∷ mysql_type_short ∷ mysql_type_long ∷ mysql_type_longlong ∷ mysql_type_int24
    ∷ mysql_type_year ∷ []

abbrev pub float_types : List ℕ
float_types = mysql_type_float ∷ mysql_type_double ∷ []

abbrev pub string_types : List ℕ
string_types = mysql_type_varchar ∷ mysql_type_var_string ∷ mysql_type_string ∷ mysql_type_bit ∷ []

abbrev pub scalar_types : List ℕ
scalar_types = integer_types ++ (float_types ++ (mysql_type_null ∷ string_types))

abbrev pub temporal_types : List ℕ
temporal_types =
    mysql_type_timestamp ∷ mysql_type_date ∷ mysql_type_time ∷ mysql_type_datetime
    ∷ mysql_type_newdate ∷ mysql_type_timestamp2 ∷ mysql_type_datetime2 ∷ mysql_type_time2 ∷ []

abbrev pub decimal_types : List ℕ
decimal_types = mysql_type_decimal ∷ mysql_type_newdecimal ∷ []

abbrev pub blob_types : List ℕ
blob_types =
    mysql_type_tiny_blob ∷ mysql_type_medium_blob ∷ mysql_type_long_blob ∷ mysql_type_blob ∷ []

unfoldable pub family : ℕ → Text
family type_code =
    if elem type_code temporal_types
    then lit "temporal"
    else if elem type_code decimal_types
    then lit "decimal"
    else if elem type_code blob_types
    then lit "blob"
    else lit "unsupported"

unfoldable pub unsigned_error : ℕ → Error
unsigned_error i =
    mysql_protocol_error
      (lit "COM_STMT_EXECUTE unsigned flag is only supported for integer parameter " ++ decimal i)

unfoldable pub uninspectable_error : ℕ → ℕ → Error
unfolding family
uninspectable_error i type_code = mysql_protocol_error (
    lit "COM_STMT_EXECUTE "
    ++ (family type_code
        ++ (lit " parameter type 0x"
            ++ (upper_hex type_code
                ++ (lit " is not safely inspectable for parameter " ++ decimal i)))))

unfoldable pub validate_stmt_parameter_type : ℕ → MySqlParameterType → Result (Unit {0})
unfolding unsigned_error uninspectable_error
validate_stmt_parameter_type i type_metadata = do
  raise_if (type_metadata.unsigned && not (elem type_metadata.type_code integer_types))
      (unsigned_error i)
  if elem type_metadata.type_code scalar_types
      then ok tt
      else err (uninspectable_error i type_metadata.type_code)
