-- ===== src/MySql/Command/Laws.antt =====
-- Command payloads read back from the layouts of the MySQL protocol.
use ohmydb_proxy.Prelude.{
  Bytes, OnlyMySqlErrors, String, [], arith, elem, false, from_bytes_le-to_bytes_le, ok,
  to_bytes_le, ℕ, ◌++◌, ◌<◌, ◌^◌, ◌↔◌, ◌∷◌, ◌≡◌,
}
use ohmydb_proxy.MySql.Constants.{
  com_init_db, com_ping, com_query, com_quit, com_stmt_close, com_stmt_execute, com_stmt_prepare,
  com_stmt_reset, com_stmt_send_long_data,
}
use ohmydb_proxy.MySql.Packet.{}
use ohmydb_proxy.MySql.Command.{
  command_kind, parse_stmt_execute, parse_stmt_long_data, parse_text, unsupported,
}

-- A COM_STMT_EXECUTE payload laid out as the protocol says.
abbrev pub execute_payload : ℕ → ℕ → ℕ → Bytes → Bytes
execute_payload statement_id flags iteration_count parameters =
    to_bytes_le 4 statement_id ++ (flags ∷ (to_bytes_le 4 iteration_count ++ parameters))

-- `parse_stmt_execute` reads back every 32-bit statement id and iteration count, the flags byte
-- and the parameter bytes.
pub parse_stmt_execute-execute_payload :
    (statement_id flags iteration_count : ℕ) (parameters : Bytes)
    → statement_id < 2 ^ 32
    → iteration_count < 2 ^ 32
    → parse_stmt_execute (execute_payload statement_id flags iteration_count parameters)
      ≡ ok (record {
        statement_id = statement_id;
        flags = flags;
        iteration_count = iteration_count;
        parameter_payload = parameters;
      })
unfolding parse_stmt_execute to_bytes_le
parse_stmt_execute-execute_payload statement_id flags iteration_count parameters hs hi = ground (
  arith,
  from_bytes_le-to_bytes_le 4 statement_id hs,
  from_bytes_le-to_bytes_le 4 iteration_count hi,
)

-- `command_kind` answers for the nine known codes and refuses every other one.
pub command_kind-unsupported :
    (code : ℕ)
    → (command_kind code ≡ unsupported) ↔ (
        elem code (
          com_query ∷ com_init_db ∷ com_quit ∷ com_ping ∷ com_stmt_prepare ∷ com_stmt_execute
          ∷ com_stmt_send_long_data ∷ com_stmt_close ∷ com_stmt_reset ∷ [])
        ≡ false)
unfolding command_kind
command_kind-unsupported code = ground arith

abbrev pub long_data_payload : ℕ → ℕ → Bytes → Bytes
long_data_payload statement_id parameter_id long_data =
    to_bytes_le 4 statement_id ++ (to_bytes_le 2 parameter_id ++ long_data)

-- `parse_stmt_long_data` reads back every 32-bit statement id, 16-bit parameter id and the data.
pub parse_stmt_long_data-long_data_payload :
    (statement_id parameter_id : ℕ) (long_data : Bytes)
    → statement_id < 2 ^ 32
    → parameter_id < 2 ^ 16
    → parse_stmt_long_data (long_data_payload statement_id parameter_id long_data)
      ≡ ok (record {
        statement_id = statement_id;
        parameter_id = parameter_id;
        long_data = long_data;
      })
unfolding parse_stmt_long_data to_bytes_le
parse_stmt_long_data-long_data_payload statement_id parameter_id long_data hs hp = ground (
  arith,
  from_bytes_le-to_bytes_le 4 statement_id hs,
  from_bytes_le-to_bytes_le 2 parameter_id hp,
)

parse_text-OnlyMySqlErrors :
    (a b : String) (payload : Bytes) → OnlyMySqlErrors (parse_text a b payload)
unfolding parse_text
parse_text-OnlyMySqlErrors a b payload e h = ground arith
