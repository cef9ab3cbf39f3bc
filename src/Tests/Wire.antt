-- ===== src/Tests/Wire.antt =====
-- Runs and instances for the wire protocol of protocol.py.
use ohmydb_proxy.Prelude.{
  All, Bytes, Text, [], arith, decimal, err, false, from_bytes_le, index_error, int_text,
  is_mysql_error, length, lit, none, ok, pos, refl, to_bytes_le, to_signed, true, ℕ, ◌++◌, ◌+◌, ◌<◌,
  ◌∷◌, ◌≡◌,
}
use ohmydb_proxy.MySql.Packet.{MySqlPacket, build_packet}
use ohmydb_proxy.MySql.Framer.{MySqlPacketFramer, next_packet, push, push_loop}
use ohmydb_proxy.MySql.Framer.Stream.{Delivers, prepend, push-Delivers, push-append, push_next}
use ohmydb_proxy.MySql.Framer.RoundTrip.{push-build_packet, push-lt-max_packet_bytes}
use ohmydb_proxy.MySql.Command.{
  MySqlStmtExecute, mysql_error, parse_stmt_execute, parse_stmt_long_data,
}
use ohmydb_proxy.MySql.Command.Laws.{
  execute_payload, long_data_payload, parse_stmt_execute-execute_payload,
  parse_stmt_long_data-long_data_payload,
}
use ohmydb_proxy.MySql.Lenenc.{Messages, read_lenenc}
use ohmydb_proxy.MySql.Lenenc.Laws.{encode_lenenc, read_lenenc-encode_lenenc}
use ohmydb_proxy.MySql.Params.{
  MySqlStmtExecuteParameters, check_last_bits, parameter_types_of, parse_parameters,
  parse_stmt_execute_parameters, read_parameter, read_parameters, read_types,
}
use ohmydb_proxy.MySql.Params.Types.{MySqlParameterType, validate_stmt_parameter_type}
use ohmydb_proxy.MySql.Params.Values.{decode_integer, decode_stmt_parameter, integer}
use ohmydb_proxy.MySql.Params.Total.{parse_stmt_execute_parameters-OnlyMySqlErrors}
use ohmydb_proxy.MySql.Params.Literals.{IsWritten}
use ohmydb_proxy.MySql.Params.ByteValues.{HasInertLiteral, parse_stmt_execute_parameters-IsInert}
use ohmydb_proxy.MySql.Reconstruct.{reconstruct}
use ohmydb_proxy.MySql.Reconstruct.Splice.{HasTemplate, reconstruct-Template}

abbrev small_framer : MySqlPacketFramer
small_framer = record { buffer = []; max_packet_bytes = 64 }

-- The header and the payload of COM_PING with the sequence id 7.
abbrev ping_packet : MySqlPacket
ping_packet = record { sequence_id = 7; payload = 14 ∷ []; raw = 1 ∷ 0 ∷ 0 ∷ 7 ∷ 14 ∷ [] }

-- A chunk that ends in the middle of the second packet.
push_runs :
    push small_framer (1 ∷ 0 ∷ 0 ∷ 7 ∷ 14 ∷ 2 ∷ 0 ∷ [])
    ≡ (ok (ping_packet ∷ []), record { buffer = 2 ∷ 0 ∷ []; max_packet_bytes = 64 })
unfolding push push_loop next_packet from_bytes_le
push_runs = refl

push-append_example :
    push small_framer ((1 ∷ 0 ∷ []) ++ (0 ∷ 7 ∷ 14 ∷ []))
    ≡ push_next (push small_framer (1 ∷ 0 ∷ [])) (0 ∷ 7 ∷ 14 ∷ [])
push-append_example = push-append small_framer (1 ∷ 0 ∷ []) (0 ∷ 7 ∷ 14 ∷ [])

push-Delivers_example : Delivers 64 (1 ∷ 0 ∷ 0 ∷ 7 ∷ 14 ∷ []) (
  (push small_framer (1 ∷ 0 ∷ 0 ∷ 7 ∷ 14 ∷ [])).0,
  (push small_framer (1 ∷ 0 ∷ 0 ∷ 7 ∷ 14 ∷ [])).1.buffer,
)
push-Delivers_example = push-Delivers small_framer (1 ∷ 0 ∷ 0 ∷ 7 ∷ 14 ∷ [])

build_packet_runs : build_packet (14 ∷ []) 7 ≡ ok (1 ∷ 0 ∷ 0 ∷ 7 ∷ 14 ∷ [])
unfolding build_packet to_bytes_le
build_packet_runs = refl

push-build_packet_example :
    push small_framer ((1 ∷ 0 ∷ 0 ∷ 7 ∷ 14 ∷ []) ++ (2 ∷ []))
    ≡ (prepend (ping_packet ∷ []) (push small_framer (2 ∷ [])).0, (push small_framer (2 ∷ [])).1)
push-build_packet_example =
    push-build_packet small_framer (14 ∷ []) (2 ∷ []) 7 refl build_packet_runs (omega arith)

push_rest_runs :
    push small_framer (2 ∷ []) ≡ (ok [], record { buffer = 2 ∷ []; max_packet_bytes = 64 })
unfolding push push_loop next_packet
push_rest_runs = refl

reconstruct-Template_example : HasTemplate (lit "SELECT '?', ?")
reconstruct-Template_example = reconstruct-Template (lit "SELECT '?', ?")

reconstruct_runs : reconstruct (lit "SELECT '?', ?") (lit "5" ∷ []) ≡ ok (lit "SELECT '?', 5")
unfolding reconstruct lit
reconstruct_runs = refl

abbrev zero_repr : Bytes → Text
zero_repr raw = b'0' ∷ []

-- One TINY parameter, 5, bound with its type.
abbrev tiny_execution : MySqlStmtExecute
tiny_execution = record {
  statement_id = 1;
  flags = 0;
  iteration_count = 1;
  parameter_payload = 0 ∷ 1 ∷ 1 ∷ 0 ∷ 5 ∷ [];
}

abbrev tiny : MySqlParameterType
tiny = record { type_code = 1; unsigned = false }

abbrev tiny_parameters : MySqlStmtExecuteParameters
tiny_parameters = record {
  null_bitmap = 0 ∷ [];
  new_params_bound = true;
  parameter_types = tiny ∷ [];
  parameters = record { type_metadata = tiny; value = integer (pos 5); sql_literal = lit "5" } ∷ [];
}

parse_stmt_execute_parameters_runs :
    parse_stmt_execute_parameters zero_repr tiny_execution 1 none ≡ ok tiny_parameters
unfolding parse_stmt_execute_parameters parse_parameters read_parameters read_parameter lit
    check_last_bits parameter_types_of read_types validate_stmt_parameter_type decode_stmt_parameter
    decode_integer to_signed int_text from_bytes_le decimal
parse_stmt_execute_parameters_runs = refl

parse_stmt_execute_parameters-IsInert_example :
    (length tiny_parameters.parameters ≡ length (tiny ∷ []))
    × (length tiny_parameters.parameter_types ≡ length (tiny ∷ []))
    × All (IsWritten zero_repr) tiny_parameters.parameters
    × All HasInertLiteral tiny_parameters.parameters
parse_stmt_execute_parameters-IsInert_example =
    parse_stmt_execute_parameters-IsInert zero_repr tiny_execution 1 none tiny_parameters
      (λ raw. (refl, tt))
      (omega arith, (omega arith, (omega arith, (omega arith, (omega arith, tt)))))
      parse_stmt_execute_parameters_runs

abbrev twice : MySqlStmtExecute
twice = record { statement_id = 1; flags = 0; iteration_count = 2; parameter_payload = [] }

twice_fails :
    parse_stmt_execute_parameters zero_repr twice 0 none
    ≡ err (mysql_error "COM_STMT_EXECUTE iteration count must be 1")
unfolding parse_stmt_execute_parameters
twice_fails = refl

parse_stmt_execute_parameters-OnlyMySqlErrors_example :
    is_mysql_error (mysql_error "COM_STMT_EXECUTE iteration count must be 1") ≡ true
parse_stmt_execute_parameters-OnlyMySqlErrors_example =
    parse_stmt_execute_parameters-OnlyMySqlErrors zero_repr twice 0 none
      (mysql_error "COM_STMT_EXECUTE iteration count must be 1") twice_fails

abbrev messages : Messages
messages = record { missing = index_error; null = index_error; truncated = index_error }

read_lenenc-encode_lenenc_example :
    read_lenenc messages ((9 ∷ []) ++ (encode_lenenc 300 ++ (8 ∷ []))) 1
    ≡ ok (300, 1 + length (encode_lenenc 300))
read_lenenc-encode_lenenc_example =
    read_lenenc-encode_lenenc messages (9 ∷ []) (8 ∷ []) 300 (omega arith)

read_lenenc_runs : read_lenenc messages (0xfc ∷ 44 ∷ 1 ∷ []) 0 ≡ ok (300, 3)
unfolding read_lenenc from_bytes_le
read_lenenc_runs = refl

parse_stmt_execute-execute_payload_example :
    parse_stmt_execute (execute_payload 1 0 1 (0 ∷ []))
    ≡ ok (record { statement_id = 1; flags = 0; iteration_count = 1; parameter_payload = 0 ∷ [] })
parse_stmt_execute-execute_payload_example =
    parse_stmt_execute-execute_payload 1 0 1 (0 ∷ []) (omega arith) (omega arith)

parse_stmt_long_data-long_data_payload_example :
    parse_stmt_long_data (long_data_payload 1 2 (3 ∷ []))
    ≡ ok (record { statement_id = 1; parameter_id = 2; long_data = 3 ∷ [] })
parse_stmt_long_data-long_data_payload_example =
    parse_stmt_long_data-long_data_payload 1 2 (3 ∷ []) (omega arith) (omega arith)

push-lt-max_packet_bytes_example : length {A = ℕ} (2 ∷ []) < 64
push-lt-max_packet_bytes_example =
    push-lt-max_packet_bytes small_framer (2 ∷ []) (omega arith) push_rest_runs
