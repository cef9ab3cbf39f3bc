-- ===== src/Postgres/Protocol.antt =====
-- pg_protocol.py: messages, the texts in their payloads, and the messages that the proxy makes.
use ohmydb_proxy.Prelude.{
  Bool, Bytes, Error, Option, Result, String, Text, [], decode_utf8, encode_utf8, false,
  if◌then◌else◌, length, lit, ltb, negsuc, none, not, ok, or_raise, pos, protocol_message_error,
  raise_if, slice, some, text_eq, to_bytes_be, unpack_signed, value_error, ℕ, ℤ, ◌&&◌, ◌++◌, ◌+◌,
  ◌==◌, ◌>>=◌, ◌>>◌, ◌||◌, ◌∷◌,
}

abbrev pub ssl_request_code : ℕ
ssl_request_code = 80877103

abbrev pub gssenc_request_code : ℕ
gssenc_request_code = 80877104

-- ProtocolMessageError(message)
abbrev pub protocol_error : String → Error
protocol_error message = protocol_message_error (lit message)

-- FrontendMessage and BackendMessage, which have the same fields.
pub record Message : Type 0 where
  pub type : Text
  pub payload : Bytes
  pub raw : Bytes

-- struct.unpack(">i", buf[start:start + 4])
abbrev pub int32_at : Bytes → ℕ → ℤ
int32_at buf start = unpack_signed 32 (slice buf start (start + 4))

abbrev pub is_int : ℕ → ℤ → Bool
is_int k (pos n) = n == k
is_int k (negsuc n) = false

unfoldable pub is_negotiation_request : Bytes → Bool
is_negotiation_request buf =
    not (ltb (length buf) 8)
    && (is_int 8 (int32_at buf 0)
        && (is_int ssl_request_code (int32_at buf 4)
            || is_int gssenc_request_code (int32_at buf 4)))

-- The text in front of a final NUL; none when the payload does not end in NUL.
unfoldable pub before_null : Bytes → Option Bytes
before_null [] = none
before_null (b ∷ []) = if b == 0 then some [] else none
before_null (b ∷ c ∷ bs) = elim (before_null (c ∷ bs)) [
  | none ↦ none
  | some front ↦ some (b ∷ front)
]

unfoldable pub parse_simple_query_text : Bytes → Result Text
unfolding before_null
parse_simple_query_text payload = do
  front ←
      or_raise (before_null payload)
        (protocol_error "Simple Query payload is missing NUL terminator")
  or_raise (decode_utf8 front) (protocol_error "Simple Query contains invalid UTF-8")

unfoldable pub parse_ready_for_query_status : Bytes → Result Text
parse_ready_for_query_status payload = do
  raise_if
      (not (text_eq payload (lit "I") || (text_eq payload (lit "T") || text_eq payload (lit "E"))))
      (protocol_error "ReadyForQuery has invalid transaction status")
  ok payload

-- A message of the backend: its type, its length with the four bytes of it, its body.
unfoldable pub backend_message : ℕ → Bytes → Bytes
backend_message type body = type ∷ (to_bytes_be 4 (length body + 4) ++ body)

unfoldable pub build_error_response : Text → Text → Bytes
unfolding backend_message
build_error_response message sql_state = backend_message b'E' (
    lit "SERROR"
    ++ (0 ∷ b'C' ∷ (encode_utf8 sql_state ++ (0 ∷ b'M' ∷ (encode_utf8 message ++ (0 ∷ 0 ∷ []))))))

-- The status is one of the three that a session has.
unfoldable pub build_ready_for_query : Text → Result Bytes
unfolding backend_message
build_ready_for_query status = do
  raise_if
      (not (text_eq status (lit "I") || (text_eq status (lit "T") || text_eq status (lit "E"))))
      (value_error (lit "ReadyForQuery status must be I, T, or E"))
  ok (backend_message b'Z' status)
