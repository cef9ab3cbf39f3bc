-- ===== src/MySql/Response/Laws.antt =====
-- OK packets of protocol.py against the protocol's layout of them.
use ohmydb_proxy.Prelude.{
  Bytes, String, [], ap, append-nil, append_assoc, arith, err, false, from_bytes_le-to_bytes_le,
  length, length-append, length-to_bytes_le, ltb, ok, refl, slice_middle, sym, to_bytes_le, true, ℕ,
  ◌!=◌, ◌++◌, ◌+◌, ◌<◌, ◌==◌, ◌^◌, ◌∙◌, ◌∷◌, ◌≡◌, ◌≤◌,
}
use ohmydb_proxy.MySql.Constants.{client_protocol_41, mariadb_client_cache_metadata}
use ohmydb_proxy.MySql.Command.{mysql_error, starts_with_byte}
use ohmydb_proxy.MySql.Lenenc.{read_packet_length_encoded_integer}
use ohmydb_proxy.MySql.Lenenc.Laws.{encode_lenenc, read_lenenc-encode_lenenc}
use ohmydb_proxy.MySql.Response.{
  has_flag, metadata_indicator, parse_ok_packet_status, parse_resultset_header, status_at,
}

-- The layout of an OK packet: the marker, two counts, the status, and what stands behind it.
unfoldable pub ok_payload : ℕ → ℕ → ℕ → Bytes → Bytes
ok_payload affected_rows last_insert_id status rest =
    0x00
    ∷ (encode_lenenc affected_rows
        ++ (encode_lenenc last_insert_id ++ (to_bytes_le 2 status ++ rest)))

-- The status is cut out of the two bytes behind any front.
status_at-to_bytes_le :
    (front rest : Bytes) (status more : ℕ) (message : String)
    → status < 2 ^ 16
    → more ≤ length rest
    → status_at (front ++ (to_bytes_le 2 status ++ rest)) (length front) more message ≡ ok status
unfolding status_at
status_at-to_bytes_le front rest status more message small enough =
    let l : length (front ++ (to_bytes_le 2 status ++ rest)) ≡ length front + 2 + length rest =
      omega (
        arith,
        length-append front (to_bytes_le 2 status ++ rest),
        length-append (to_bytes_le 2 status) rest,
        length-to_bytes_le 2 status,
      ) in
    let e : ltb (length (front ++ (to_bytes_le 2 status ++ rest))) (length front + 2 + more)
        ≡ false =
      ground (arith, l) in
    rw
      (
        e,
        slice_middle front (to_bytes_le 2 status) rest 2 (length-to_bytes_le 2 status),
        from_bytes_le-to_bytes_le 2 status small,
      )
      refl

-- A count behind a front, read with the messages of a backend's packet.
read_count :
    (front rest : Bytes) (n : ℕ) (field_name : String)
    → n < 2 ^ 64
    → read_packet_length_encoded_integer
        (front ++ (encode_lenenc n ++ rest))
        (length front)
        field_name
      ≡ ok (n, length (front ++ encode_lenenc n))
unfolding read_packet_length_encoded_integer
read_count front rest n field_name small =
    rw (length-append front (encode_lenenc n)) (read_lenenc-encode_lenenc _ front rest n small)

-- The status of an OK packet is found behind its two counts, whatever their encodings' lengths,
-- when CLIENT_PROTOCOL_41 was negotiated, the counts are below 2 ^ 64, the status is below 2 ^ 16,
-- and at least the two bytes of the warning count follow it.
pub parse_ok_packet_status-ok_payload :
    (affected_rows last_insert_id status capability_flags : ℕ) (rest : Bytes)
    → affected_rows < 2 ^ 64
    → last_insert_id < 2 ^ 64
    → status < 2 ^ 16
    → 2 ≤ length rest
    → has_flag capability_flags client_protocol_41 ≡ true
    → parse_ok_packet_status (ok_payload affected_rows last_insert_id status rest) capability_flags
      ≡ ok status
unfolding ok_payload parse_ok_packet_status starts_with_byte
parse_ok_packet_status-ok_payload affected_rows last_insert_id status capability_flags rest a b s r
      f =
    let message : String = "Backend OK packet is missing status or warning fields" in
    let first : Bytes = (0x00 ∷ []) ++ encode_lenenc affected_rows in
    let second : Bytes = first ++ encode_lenenc last_insert_id in
    let tail : Bytes = to_bytes_le 2 status ++ rest in
    let whole : ok_payload affected_rows last_insert_id status rest ≡ second ++ tail =
      rw (append_assoc first (encode_lenenc last_insert_id) tail) refl in
    let cut : status_at (ok_payload affected_rows last_insert_id status rest) (length second) 2
          message
        ≡ ok status =
      ap (λ p. status_at p (length second) 2 message) whole
      ∙ status_at-to_bytes_le second rest status 2 message s r in
    rw
      (
        read_count (0x00 ∷ []) (encode_lenenc last_insert_id ++ tail) affected_rows
            "OK affected rows" a,
        read_count first tail last_insert_id "OK last insert id" b,
        f,
      )
      cut

-- The same where nothing stands before or behind the count.
read_count_alone :
    (n : ℕ) (field_name : String)
    → n < 2 ^ 64
    → read_packet_length_encoded_integer (encode_lenenc n) 0 field_name
      ≡ ok (n, length (encode_lenenc n))
read_count_alone n field_name small =
    ap (λ p. read_packet_length_encoded_integer p 0 field_name) (sym (append-nil (encode_lenenc n)))
    ∙ read_count [] [] n field_name small

-- The header of a result set that consists of the encoding of its column count is read back as that
-- count, with the metadata to follow, and with any bytes behind it the header is refused, when the
-- count is positive and below 2 ^ 64 and MariaDB's cache of metadata was not negotiated.
pub parse_resultset_header-encode_lenenc :
    (count capability_flags byte : ℕ) (rest : Bytes)
    → 0 < count
    → count < 2 ^ 64
    → has_flag capability_flags mariadb_client_cache_metadata ≡ false
    → (parse_resultset_header (encode_lenenc count) capability_flags ≡ ok (count, true))
      × (parse_resultset_header (encode_lenenc count ++ (byte ∷ rest)) capability_flags
          ≡ err (mysql_error "Backend result-set header has unexpected trailing bytes"))
unfolding parse_resultset_header metadata_indicator
parse_resultset_header-encode_lenenc count capability_flags byte rest positive small f =
    let nonzero : (count == 0) ≡ false = ground arith in
    let size : ℕ = length (encode_lenenc count) in
    let exact_end : (size != size) ≡ false = ground arith in
    let early_end : (size != length (encode_lenenc count ++ (byte ∷ rest))) ≡ true =
      ground (arith, length-append (encode_lenenc count) (byte ∷ rest)) in
    (
      rw (read_count_alone count "result-set column count" small, nonzero, f, exact_end) refl,
      rw (read_count [] (byte ∷ rest) count "result-set column count" small, nonzero, f, early_end)
          refl,
    )
