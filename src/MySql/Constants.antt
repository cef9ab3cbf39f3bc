-- ===== src/MySql/Constants.antt =====
-- The numeric constants of sql_safety_proxy/adapters/mysql/protocol.py.
use ohmydb_proxy.Prelude.{ℕ}

abbrev pub max_packet_payload : ℕ
max_packet_payload = 0xffffff

abbrev pub default_max_packet_bytes : ℕ
default_max_packet_bytes = 67108864

abbrev pub com_quit : ℕ
com_quit = 0x01

abbrev pub com_init_db : ℕ
com_init_db = 0x02

abbrev pub com_query : ℕ
com_query = 0x03

abbrev pub com_ping : ℕ
com_ping = 0x0e

abbrev pub com_stmt_prepare : ℕ
com_stmt_prepare = 0x16

abbrev pub com_stmt_execute : ℕ
com_stmt_execute = 0x17

abbrev pub com_stmt_send_long_data : ℕ
com_stmt_send_long_data = 0x18

abbrev pub com_stmt_close : ℕ
com_stmt_close = 0x19

abbrev pub com_stmt_reset : ℕ
com_stmt_reset = 0x1a

abbrev pub mariadb_stmt_id_last : ℕ
mariadb_stmt_id_last = 0xffffffff

abbrev pub client_mysql : ℕ
client_mysql = 0x00000001

abbrev pub client_connect_with_db : ℕ
client_connect_with_db = 0x00000008

abbrev pub client_ssl : ℕ
client_ssl = 0x00000800

abbrev pub client_protocol_41 : ℕ
client_protocol_41 = 0x00000200

abbrev pub client_transactions : ℕ
client_transactions = 0x00002000

abbrev pub client_plugin_auth_lenenc_client_data : ℕ
client_plugin_auth_lenenc_client_data = 0x00200000

abbrev pub client_secure_connection : ℕ
client_secure_connection = 0x00008000

abbrev pub client_plugin_auth : ℕ
client_plugin_auth = 0x00080000

abbrev pub client_deprecate_eof : ℕ
client_deprecate_eof = 0x01000000

abbrev pub mariadb_client_cache_metadata : ℕ
mariadb_client_cache_metadata = 68719476736

abbrev pub server_status_in_trans : ℕ
server_status_in_trans = 0x0001

abbrev pub server_status_autocommit : ℕ
server_status_autocommit = 0x0002

abbrev pub server_more_results_exists : ℕ
server_more_results_exists = 0x0008

abbrev pub server_status_in_trans_readonly : ℕ
server_status_in_trans_readonly = 0x2000

abbrev pub mysql_type_decimal : ℕ
mysql_type_decimal = 0x00

abbrev pub mysql_type_tiny : ℕ
mysql_type_tiny = 0x01

abbrev pub mysql_type_short : ℕ
mysql_type_short = 0x02

abbrev pub mysql_type_long : ℕ
mysql_type_long = 0x03

abbrev pub mysql_type_float : ℕ
mysql_type_float = 0x04

abbrev pub mysql_type_double : ℕ
mysql_type_double = 0x05

abbrev pub mysql_type_null : ℕ
mysql_type_null = 0x06

abbrev pub mysql_type_timestamp : ℕ
mysql_type_timestamp = 0x07

abbrev pub mysql_type_longlong : ℕ
mysql_type_longlong = 0x08

abbrev pub mysql_type_int24 : ℕ
mysql_type_int24 = 0x09

abbrev pub mysql_type_date : ℕ
mysql_type_date = 0x0a

abbrev pub mysql_type_time : ℕ
mysql_type_time = 0x0b

abbrev pub mysql_type_datetime : ℕ
mysql_type_datetime = 0x0c

abbrev pub mysql_type_year : ℕ
mysql_type_year = 0x0d

abbrev pub mysql_type_newdate : ℕ
mysql_type_newdate = 0x0e

abbrev pub mysql_type_varchar : ℕ
mysql_type_varchar = 0x0f

abbrev pub mysql_type_bit : ℕ
mysql_type_bit = 0x10

abbrev pub mysql_type_timestamp2 : ℕ
mysql_type_timestamp2 = 0x11

abbrev pub mysql_type_datetime2 : ℕ
mysql_type_datetime2 = 0x12

abbrev pub mysql_type_time2 : ℕ
mysql_type_time2 = 0x13

abbrev pub mysql_type_typed_array : ℕ
mysql_type_typed_array = 0x14

abbrev pub mysql_type_vector : ℕ
mysql_type_vector = 0xf2

abbrev pub mysql_type_invalid : ℕ
mysql_type_invalid = 0xf3

abbrev pub mysql_type_bool : ℕ
mysql_type_bool = 0xf4

abbrev pub mysql_type_json : ℕ
mysql_type_json = 0xf5

abbrev pub mysql_type_newdecimal : ℕ
mysql_type_newdecimal = 0xf6

abbrev pub mysql_type_enum : ℕ
mysql_type_enum = 0xf7

abbrev pub mysql_type_set : ℕ
mysql_type_set = 0xf8

abbrev pub mysql_type_tiny_blob : ℕ
mysql_type_tiny_blob = 0xf9

abbrev pub mysql_type_medium_blob : ℕ
mysql_type_medium_blob = 0xfa

abbrev pub mysql_type_long_blob : ℕ
mysql_type_long_blob = 0xfb

abbrev pub mysql_type_blob : ℕ
mysql_type_blob = 0xfc

abbrev pub mysql_type_var_string : ℕ
mysql_type_var_string = 0xfd

abbrev pub mysql_type_string : ℕ
mysql_type_string = 0xfe

abbrev pub mysql_type_geometry : ℕ
mysql_type_geometry = 0xff

abbrev pub mysql_unsigned_flag : ℕ
mysql_unsigned_flag = 0x80
