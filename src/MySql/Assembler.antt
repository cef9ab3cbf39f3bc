-- ===== src/MySql/Assembler.antt =====
-- `MySqlLogicalMessageAssembler` of protocol.py.
pub mod Invariant
pub mod Messages
use ohmydb_proxy.Prelude.{
  Bool, Bytes, List, Option, Result, [], decimal, err, if◌then◌else◌, join, length, lit, ltb,
  mysql_protocol_error, none, ok, raise_if, some, value_error, value_or, ℕ, ◌!=◌, ◌%◌, ◌++◌, ◌+◌,
  ◌==◌, ◌>>◌, ◌∷◌,
}
use ohmydb_proxy.MySql.Constants.{max_packet_payload}
use ohmydb_proxy.MySql.Packet.{MySqlLogicalMessage, MySqlPacket}

pub record MySqlLogicalMessageAssembler : Type 0 where
  pub max_message_bytes : ℕ
  pub payload_parts : List Bytes
  pub raw_parts : List Bytes
  pub first_sequence_id : Option ℕ
  pub last_sequence_id : Option ℕ
  pub packet_count : ℕ

-- MySqlLogicalMessageAssembler(max_message_bytes)
unfoldable pub new : ℕ → Result MySqlLogicalMessageAssembler
new max_message_bytes = do
  raise_if (ltb max_message_bytes 1) (value_error (lit "max_message_bytes must be positive"))
  ok (record {
    max_message_bytes = max_message_bytes;
    payload_parts = [];
    raw_parts = [];
    first_sequence_id = none;
    last_sequence_id = none;
    packet_count = 0;
  })

unfoldable pub has_partial_message : MySqlLogicalMessageAssembler → Bool
has_partial_message self = ltb 0 self.packet_count

unfoldable pub reset : MySqlLogicalMessageAssembler → MySqlLogicalMessageAssembler
reset self = record self {
  payload_parts = [];
  raw_parts = [];
  first_sequence_id = none;
  last_sequence_id = none;
  packet_count = 0;
}

-- sum(len(part) for part in parts)
abbrev pub total_length : List Bytes → ℕ
total_length [] = 0
total_length (part ∷ parts) = length part + total_length parts

-- `push` after its test of the sequence id.
unfoldable pub accept :
    MySqlLogicalMessageAssembler
    → MySqlPacket
    → Result (Option MySqlLogicalMessage) × MySqlLogicalMessageAssembler
unfolding reset
accept self packet =
    let first = value_or self.first_sequence_id packet.sequence_id in
    let self' = record self {
      first_sequence_id = some first;
      last_sequence_id = some packet.sequence_id;
      packet_count = self.packet_count + 1;
      payload_parts = self.payload_parts ++ (packet.payload ∷ []);
      raw_parts = self.raw_parts ++ (packet.raw ∷ []);
    } in
    if ltb self.max_message_bytes (total_length (self'.payload_parts))
    then (
      err (
          mysql_protocol_error (
            lit "MySQL logical message exceeds configured maximum "
            ++ decimal self.max_message_bytes)),
      reset self',
    )
    else if length packet.payload == max_packet_payload
    then (ok none, self')
    else (
      ok (
          some (record {
            first_sequence_id = first;
            last_sequence_id = packet.sequence_id;
            payload = join (self'.payload_parts);
            raw_packets = join (self'.raw_parts);
            packet_count = self'.packet_count;
          })),
      reset self',
    )

-- The sequence id that the test of `push` expects, and the test.
unfoldable pub push_after :
    Option ℕ
    → MySqlLogicalMessageAssembler
    → MySqlPacket
    → Result (Option MySqlLogicalMessage) × MySqlLogicalMessageAssembler
unfolding accept
push_after none self packet = accept self packet
push_after (some last) self packet =
    let expected = (last + 1) % 256 in
    if packet.sequence_id != expected
    then (
      err (
          mysql_protocol_error (
            lit "MySQL logical-message packet sequence mismatch: expected "
            ++ (decimal expected ++ (lit ", received " ++ decimal packet.sequence_id)))),
      reset self,
    )
    else accept self packet

unfoldable pub push :
    MySqlLogicalMessageAssembler
    → MySqlPacket
    → Result (Option MySqlLogicalMessage) × MySqlLogicalMessageAssembler
unfolding push_after
push self packet = push_after self.last_sequence_id self packet
