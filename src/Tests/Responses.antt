-- ===== src/Tests/Responses.antt =====
-- Runs of the parsers of backend responses, and instances of their theorems.
use ohmydb_proxy.Prelude.{[], arith, err, false, ok, refl, true, ◌++◌, ◌∷◌, ◌≡◌}
use ohmydb_proxy.MySql.Constants.{client_protocol_41, mariadb_client_cache_metadata}
use ohmydb_proxy.MySql.Command.{mysql_error}
use ohmydb_proxy.MySql.Lenenc.Laws.{encode_lenenc}
use ohmydb_proxy.MySql.Response.{has_flag, parse_ok_packet_status, parse_resultset_header}
use ohmydb_proxy.MySql.Response.Laws.{
  ok_payload, parse_ok_packet_status-ok_payload, parse_resultset_header-encode_lenenc,
}

has_protocol_41 : has_flag 512 client_protocol_41 ≡ true
has_protocol_41 = refl

has_no_cache : has_flag 512 mariadb_client_cache_metadata ≡ false
has_no_cache = refl

parse_ok_packet_status-ok_payload_example :
    parse_ok_packet_status (ok_payload 300 7 2 (0 ∷ 0 ∷ [])) 512 ≡ ok 2
parse_ok_packet_status-ok_payload_example =
    parse_ok_packet_status-ok_payload 300 7 2 512 (0 ∷ 0 ∷ []) (omega arith) (omega arith)
      (omega arith) (omega arith) has_protocol_41

parse_resultset_header-encode_lenenc_example :
    (parse_resultset_header (encode_lenenc 300) 512 ≡ ok (300, true))
    × (parse_resultset_header (encode_lenenc 300 ++ (9 ∷ [])) 512
        ≡ err (mysql_error "Backend result-set header has unexpected trailing bytes"))
parse_resultset_header-encode_lenenc_example =
    parse_resultset_header-encode_lenenc 300 512 9 [] (omega arith) (omega arith) has_no_cache
