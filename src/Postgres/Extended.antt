-- ===== src/Postgres/Extended.antt =====
-- extended_protocol.py: the messages Parse, Bind, Execute and Close.
pub mod Laws
pub mod Reads
pub mod RoundTrip
use ohmydb_proxy.Prelude.{
  Bytes, Error, List, Option, Result, String, Text, [], decode_ascii, decode_utf8, drop, err,
  find_null, if◌then◌else◌, is_empty, leb, length, lit, ltb, negsuc, none, not, ok, or_raise, pos,
  protocol_message_error, raise_if, replicate, slice, some, struct_error, suc, take, text_eq,
  unpack_signed, zero, ℕ, ℤ, ◌!=◌, ◌*◌, ◌++◌, ◌+◌, ◌>>=◌, ◌>>◌, ◌||◌, ◌∷◌,
}
use ohmydb_proxy.Postgres.Protocol.{is_int, protocol_error}

-- `_require`, for an offset and a size that are not negative.
abbrev pub require : Bytes → ℕ → ℕ → String → Result (Unit {0})
require buf offset size context =
    raise_if (ltb (length buf) (offset + size))
      (protocol_message_error (lit context ++ lit " is truncated"))

unfoldable pub read_cstring : Bytes → ℕ → Result (Text × ℕ)
read_cstring buf offset = do
  raise_if (leb (length buf) offset) (protocol_error "missing NUL-terminated string")
  end ←
      or_raise (find_null (drop offset buf) offset) (protocol_error "unterminated protocol string")
  value ←
      or_raise (decode_utf8 (slice buf offset end))
        (protocol_error "protocol string contains invalid UTF-8")
  ok (value, end + 1)

-- struct.unpack_from(">h", buf, offset)[0] for two bytes, and with ">i" for four: it raises when the
-- buffer ends before them.
unfoldable pub unpack_from : ℕ → Bytes → ℕ → Result ℤ
unpack_from size buf offset =
    if ltb (length buf) (offset + size)
    then err struct_error
    else ok (unpack_signed (8 * size) (slice buf offset (offset + size)))

unfoldable pub read_int16 : Bytes → ℕ → String → Result (ℤ × ℕ)
unfolding unpack_from
read_int16 buf offset context = do
  require buf offset 2 context
  value ← unpack_from 2 buf offset
  ok (value, offset + 2)

unfoldable pub read_int32 : Bytes → ℕ → String → Result (ℤ × ℕ)
unfolding unpack_from
read_int32 buf offset context = do
  require buf offset 4 context
  value ← unpack_from 4 buf offset
  ok (value, offset + 4)

-- A number that must not be negative.
abbrev pub not_negative : ℤ → Error → Result ℕ
not_negative (pos n) e = ok n
not_negative (negsuc n) e = err e

pub record ParseMessage : Type 0 where
  pub statement_name : Text
  pub query : Text

unfoldable pub parse_parse_message : Bytes → Result ParseMessage
unfolding read_cstring read_int16
parse_parse_message payload = do
  (statement_name, offset) ← read_cstring payload 0
  (query, offset') ← read_cstring payload offset
  (signed, offset'') ← read_int16 payload offset' "Parse parameter type count"
  count ← not_negative signed (protocol_error "Parse parameter type count cannot be negative")
  require payload offset'' (count * 4) "Parse parameter OID list"
  raise_if (offset'' + count * 4 != length payload)
      (protocol_error "Parse message contains trailing bytes")
  ok (record { statement_name = statement_name; query = query })

pub record BindMessage : Type 0 where
  pub portal_name : Text
  pub statement_name : Text
  pub param_values : List (Option Bytes)
  pub format_codes : List ℕ
  pub result_format_codes : List ℕ

-- struct.unpack_from(f">{count}h", payload, offset), each code 0 or 1.
unfoldable pub read_codes : Bytes → ℕ → ℕ → Error → Result (List ℕ)
unfolding unpack_from
read_codes payload offset zero e = ok []
read_codes payload offset (suc count) e = do
  code ← unpack_from 2 payload offset
  codes ← read_codes payload (offset + 2) count e
  raise_if (not (is_int 0 code || is_int 1 code)) e
  ok ((if is_int 0 code then 0 else 1) ∷ codes)

-- A count and as many codes, with the texts of the four errors.
unfoldable pub read_format_codes :
    Bytes → ℕ → String → String → String → String → Result (List ℕ × ℕ)
unfolding read_int16 read_codes
read_format_codes payload offset counted negative truncated invalid = do
  (signed, offset') ← read_int16 payload offset counted
  count ← not_negative signed (protocol_error negative)
  require payload offset' (count * 2) truncated
  codes ← read_codes payload offset' count (protocol_error invalid)
  ok (codes, offset' + count * 2)

-- One value: NULL for the length -1.
abbrev pub read_value : Bytes → ℤ → ℕ → Result (Option Bytes × ℕ)
read_value payload (negsuc zero) offset = ok (none, offset)
read_value payload (negsuc (suc n)) offset = err (protocol_error "Bind parameter length is invalid")
read_value payload (pos length) offset = do
  require payload offset length "Bind parameter value"
  ok (some (slice payload offset (offset + length)), offset + length)

unfoldable pub read_values : Bytes → ℕ → ℕ → Result (List (Option Bytes) × ℕ)
unfolding read_int32
read_values payload offset zero = ok ([], offset)
read_values payload offset (suc count) = do
  (length, offset') ← read_int32 payload offset "Bind parameter length"
  (value, offset'') ← read_value payload length offset'
  (values, end) ← read_values payload offset'' count
  ok (value ∷ values, end)

-- One format code stands for all parameters, and none for the text format.
unfoldable pub resolve_format_codes : List ℕ → ℕ → Result (List ℕ)
resolve_format_codes [] num_params = ok (replicate num_params 0)
resolve_format_codes (code ∷ []) num_params = ok (replicate num_params code)
resolve_format_codes (code ∷ code' ∷ codes) num_params = do
  raise_if (length (code ∷ code' ∷ codes) != num_params)
      (protocol_error "Bind format code count must be zero, one, or match parameter count")
  ok (code ∷ code' ∷ codes)

-- The part of a Bind message behind its two names.
unfoldable pub parse_bind_tail : Bytes → ℕ → Text → Text → Result BindMessage
unfolding read_format_codes read_values resolve_format_codes read_int16
parse_bind_tail payload offset portal_name statement_name = do
  (raw_format_codes, offset') ←
      read_format_codes payload offset "Bind format count" "Bind format count cannot be negative"
        "Bind format codes" "Bind parameter format code must be 0 or 1"
  (signed, offset'') ← read_int16 payload offset' "Bind parameter count"
  num_params ← not_negative signed (protocol_error "Bind parameter count cannot be negative")
  (values, offset''') ← read_values payload offset'' num_params
  (result_codes, end) ←
      read_format_codes payload offset''' "Bind result format count"
        "Bind result format count cannot be negative" "Bind result format codes"
        "Bind result format code must be 0 or 1"
  raise_if (end != length payload) (protocol_error "Bind message contains trailing bytes")
  format_codes ← resolve_format_codes raw_format_codes num_params
  ok (record {
    portal_name = portal_name;
    statement_name = statement_name;
    param_values = values;
    format_codes = format_codes;
    result_format_codes = result_codes;
  })

unfoldable pub parse_bind_message : Bytes → Result BindMessage
unfolding read_cstring parse_bind_tail
parse_bind_message payload = do
  (portal_name, offset) ← read_cstring payload 0
  (statement_name, offset') ← read_cstring payload offset
  parse_bind_tail payload offset' portal_name statement_name

pub record ExecuteMessage : Type 0 where
  pub portal_name : Text
  pub max_rows : ℕ

unfoldable pub parse_execute_message : Bytes → Result ExecuteMessage
unfolding read_cstring read_int32
parse_execute_message payload = do
  (portal_name, offset) ← read_cstring payload 0
  (signed, end) ← read_int32 payload offset "Execute max rows"
  max_rows ← not_negative signed (protocol_error "Execute max rows cannot be negative")
  raise_if (end != length payload) (protocol_error "Execute message contains trailing bytes")
  ok (record { portal_name = portal_name; max_rows = max_rows })

pub record CloseMessage : Type 0 where
  pub target_type : Text
  pub name : Text

unfoldable pub parse_close_message : Bytes → Result CloseMessage
unfolding read_cstring
parse_close_message payload = do
  raise_if (is_empty payload) (protocol_error "Close message is empty")
  target_type ←
      or_raise (decode_ascii (take 1 payload)) (protocol_error "Close target type is not ASCII")
  raise_if (not (text_eq target_type (lit "S") || text_eq target_type (lit "P")))
      (protocol_error "Close target type must be S or P")
  (name, offset) ← read_cstring payload 1
  raise_if (offset != length payload) (protocol_error "Close message contains trailing bytes")
  ok (record { target_type = target_type; name = name })
