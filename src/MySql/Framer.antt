-- ===== src/MySql/Framer.antt =====
-- `MySqlPacketFramer` of protocol.py. A method returns its result, or the exception that it
-- raised, with the new state: what was taken off the buffer before a raise stays taken off.
pub mod Rounds
pub mod Loop
pub mod Stream
pub mod RoundTrip
use ohmydb_proxy.Prelude.{
  Bytes, Error, List, Result, [], decimal, drop, err, from_bytes_le, if◌then◌else◌, index, length,
  lit, ltb, mysql_protocol_error, ok, raise_if, suc, take, value_error, zero, ℕ, ◌++◌, ◌+◌, ◌>>◌,
  ◌∷◌,
}
use ohmydb_proxy.MySql.Packet.{MySqlPacket}

pub record MySqlPacketFramer : Type 0 where
  pub buffer : Bytes
  pub max_packet_bytes : ℕ

-- MySqlPacketFramer(max_packet_bytes)
unfoldable pub new : ℕ → Result MySqlPacketFramer
new max_packet_bytes = do
  raise_if (ltb max_packet_bytes 4) (value_error (lit "max_packet_bytes must be at least 4"))
  ok (record { buffer = []; max_packet_bytes = max_packet_bytes })

-- What one round of the loop of `push` does: it breaks, raises, or appends a packet and goes on
-- with the rest of the buffer.
pub data Round : Type 0 where
  wait : Round
  reject : Error → Round
  frame : MySqlPacket → Bytes → Round

unfoldable pub next_packet : ℕ → Bytes → Round
next_packet max_packet_bytes buffer =
    let total_length = from_bytes_le (take 3 buffer) + 4 in
    if ltb (length buffer) 4
    then wait
    else if ltb max_packet_bytes total_length
    then reject (
        mysql_protocol_error (
          lit "MySQL packet size "
          ++ (decimal total_length
              ++ (lit " exceeds configured maximum " ++ decimal max_packet_bytes))))
    else if ltb (length buffer) total_length
    then wait
    else elim (index (take total_length buffer) 3) [
      | err e ↦ reject e
      | ok sequence_id ↦
          frame
            (record {
              sequence_id = sequence_id;
              payload = drop 4 (take total_length buffer);
              raw = take total_length buffer;
            })
            (drop total_length buffer)
    ]

-- The loop, with the packets found so far. Each round that goes on takes 4 bytes at least.
unfoldable pub push_loop : ℕ → ℕ → Bytes → List MySqlPacket → Result (List MySqlPacket) × Bytes
push_loop max_packet_bytes zero buffer packets = (ok packets, buffer)
push_loop max_packet_bytes (suc fuel) buffer packets = elim (next_packet max_packet_bytes buffer) [
  | wait ↦ (ok packets, buffer)
  | reject e ↦ (err e, buffer)
  | frame p rest ↦ push_loop max_packet_bytes fuel rest (packets ++ (p ∷ []))
]

unfoldable pub push : MySqlPacketFramer → Bytes → Result (List MySqlPacket) × MySqlPacketFramer
unfolding push_loop next_packet
push self chunk =
    let buffer = self.buffer ++ chunk in
    let (packets, rest) = push_loop self.max_packet_bytes (length buffer) buffer [] in
    (packets, record self { buffer = rest })
