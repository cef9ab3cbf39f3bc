-- ===== src/Postgres/Framer.antt =====
-- `_MessageFramer` of pg_protocol.py, with `FrontendFramer` and `BackendFramer`, which differ in the
-- class of their messages.
pub mod Laws
use ohmydb_proxy.Prelude.{
  Bytes, Error, List, Result, [], decimal, decode_ascii, drop, err, if◌then◌else◌, int_text, length,
  lit, ltb, negsuc, none, ok, pos, protocol_message_error, raise_if, some, take, value_error, ℕ, ℤ,
  ◌++◌, ◌+◌, ◌>>◌,
}
use ohmydb_proxy.Framing.{Round, frame, loop, reject, wait}
use ohmydb_proxy.Postgres.Protocol.{Message, int32_at, protocol_error}

pub record MessageFramer : Type 0 where
  pub buffer : Bytes
  pub max_message_bytes : ℕ

unfoldable pub new : ℕ → Result MessageFramer
new max_message_bytes = do
  raise_if (ltb max_message_bytes 5) (value_error (lit "max_message_bytes must be at least 5"))
  ok (record { buffer = []; max_message_bytes = max_message_bytes })

abbrev pub too_short : ℤ → Error
too_short length =
    protocol_message_error
      (lit "invalid PostgreSQL message length " ++ (int_text length ++ lit "; minimum is 4"))

-- The size of the whole message for the length that it announces.
abbrev pub total_size : ℕ → ℤ → Result ℕ
total_size max (negsuc n) = err (too_short (negsuc n))
total_size max (pos length) = do
  raise_if (ltb length 4) (too_short (pos length))
  raise_if (ltb max (1 + length)) (
      protocol_message_error (
        lit "PostgreSQL message size "
        ++ (decimal (1 + length) ++ (lit " exceeds configured maximum " ++ decimal max))))
  ok (1 + length)

-- A message that is complete is taken off the buffer, also when its type is refused.
unfoldable pub cut_message : ℕ → Bytes → Round Message
cut_message size buffer =
    if ltb (length buffer) size then wait else elim (decode_ascii (take 1 (take size buffer))) [
      | none ↦ reject (protocol_error "message type is not ASCII") (drop size buffer)
      | some type ↦
          frame
            (record { type = type; payload = drop 5 (take size buffer); raw = take size buffer })
            (drop size buffer)
    ]

-- One round of the loop of `_push`.
unfoldable pub next_message : ℕ → Bytes → Round Message
unfolding cut_message
next_message max buffer =
    if ltb (length buffer) 5 then wait else elim (total_size max (int32_at buffer 1)) [
      | err e ↦ reject e buffer
      | ok size ↦ cut_message size buffer
    ]

unfoldable pub push : MessageFramer → Bytes → Result (List Message) × MessageFramer
push self chunk =
    let buffer = self.buffer ++ chunk in
    let (messages, rest) = loop (next_message self.max_message_bytes) (length buffer) buffer [] in
    (messages, record self { buffer = rest })
