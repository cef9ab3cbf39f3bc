-- ===== src/Tests/Extended.antt =====
-- Runs and instances for the extended protocol and for the texts of parameters.
use ohmydb_proxy.Prelude.{
  All, Bytes, Text, [], arith, decimal, decode_utf8, decode_utf8_replace, find_null, from_bytes_be,
  from_bytes_le, int_text, is_settled, lit, none, ok, refl, some, to_signed, true, unpack_signed,
  ◌++◌, ◌∷◌, ◌≡◌, ◌⊎◌,
}
use ohmydb_proxy.Prelude.Plain.{IsPlain}
use ohmydb_proxy.Postgres.Extended.{
  BindMessage, parse_bind_message, parse_close_message, parse_execute_message, parse_parse_message,
  resolve_format_codes,
}
use ohmydb_proxy.Postgres.Extended.Laws.{parsers_settled}
use ohmydb_proxy.Postgres.Extended.Reads.{bind_payload}
use ohmydb_proxy.Postgres.Extended.RoundTrip.{parse_bind_message-bind_payload}
use ohmydb_proxy.Postgres.Preview.{decode_param}
use ohmydb_proxy.Postgres.Preview.Laws.{decode_param-IsLiteral, read_literal}

-- The unnamed portal of the statement "s" with the values "7" and NULL, in the text format.
abbrev pub bind : BindMessage
bind = record {
  portal_name = [];
  statement_name = b's' ∷ [];
  param_values = some (b'7' ∷ []) ∷ none ∷ [];
  format_codes = 0 ∷ 0 ∷ [];
  result_format_codes = 1 ∷ [];
}

abbrev pub bind_bytes : Bytes
bind_bytes = bind_payload [] (b's' ∷ []) (0 ∷ []) (some (b'7' ∷ []) ∷ none ∷ []) (1 ∷ [])

ascii_s : decode_utf8 (b's' ∷ []) ≡ some (b's' ∷ [])
unfolding decode_utf8
ascii_s = refl

ascii_nil : decode_utf8 [] ≡ some []
unfolding decode_utf8
ascii_nil = refl

no_null : (find_null [] 0 ≡ none) × (find_null (b's' ∷ []) 0 ≡ none)
unfolding find_null
no_null = (refl, refl)

resolved : resolve_format_codes (0 ∷ []) 2 ≡ ok (0 ∷ 0 ∷ [])
unfolding resolve_format_codes
resolved = refl

parse_bind_message-bind_payload_example : parse_bind_message bind_bytes ≡ ok bind
parse_bind_message-bind_payload_example =
    parse_bind_message-bind_payload [] (b's' ∷ []) [] (b's' ∷ []) (0 ∷ [])
      (some (b'7' ∷ []) ∷ none ∷ []) (1 ∷ []) (0 ∷ 0 ∷ []) no_null.0 no_null.1 ascii_nil ascii_s
      (ground arith) (ground arith) (ground arith) (ground arith, tt) (ground arith, tt)
      (ground arith, (tt, tt)) resolved

parsers_settled_example :
    (is_settled (parse_parse_message bind_bytes) ≡ true)
    × (is_settled (parse_bind_message bind_bytes) ≡ true)
    × (is_settled (parse_execute_message bind_bytes) ≡ true)
    × (is_settled (parse_close_message bind_bytes) ≡ true)
parsers_settled_example = parsers_settled bind_bytes

quote_runs : (decode_param (some (lit "O'Neil")) 0).sql_literal ≡ lit "'O''Neil'"
unfolding decode_param lit decode_utf8_replace
quote_runs = refl

decode_param-IsLiteral_example :
    All IsPlain (decode_param (some (lit "O'Neil")) 0).sql_literal
    ⊎ ((t : Text) × (read_literal ((decode_param (some (lit "O'Neil")) 0).sql_literal ++ lit ", 1)")
          ≡ some (t, lit ", 1)")))
unfolding lit
decode_param-IsLiteral_example = decode_param-IsLiteral (some (lit "O'Neil")) 0 (lit ", 1)") refl

-- Integers are decoded from their bytes, a negative one with its sign.
binary_runs : (decode_param (some (0xff ∷ 0xff ∷ 0xff ∷ 0xfe ∷ [])) 1).sql_literal ≡ lit "-2"
unfolding decode_param lit int_text unpack_signed to_signed from_bytes_be from_bytes_le decimal
binary_runs = refl
