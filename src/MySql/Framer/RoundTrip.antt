-- ===== src/MySql/Framer/RoundTrip.antt =====
-- `build_packet` against `MySqlPacketFramer.push`, and the limit on the framer's buffer.
use ohmydb_proxy.Prelude.{
  Bytes, List, [], ap, arith, drop, drop-length_append, from_bytes_le, from_bytes_le-to_bytes_le,
  length, length-append, ok, suc, take, take-length_append, to_bytes_le, ℕ, ◌%◌, ◌++◌, ◌+◌, ◌/◌,
  ◌<◌, ◌^◌, ◌∙◌, ◌∷◌, ◌≡◌, ◌≤◌,
}
use ohmydb_proxy.MySql.Constants.{}
use ohmydb_proxy.MySql.Packet.{MySqlPacket, build_packet}
use ohmydb_proxy.MySql.Framer.{MySqlPacketFramer, frame, next_packet, push}
use ohmydb_proxy.MySql.Framer.Rounds.{next_packet_wait}
use ohmydb_proxy.MySql.Framer.Loop.{push_loop_frame}
use ohmydb_proxy.MySql.Framer.Stream.{
  Delivers, prepend, push-Delivers, push_loop-prepend, self_with,
}

-- The header of a payload that `build_packet` accepts, in front of the payload.
abbrev pub packet_bytes : Bytes → ℕ → Bytes
packet_bytes payload sequence_id = to_bytes_le 3 (length payload) ++ ((sequence_id ∷ []) ++ payload)

build_packet_fits :
    (payload : Bytes) (sequence_id : ℕ) {raw : Bytes}
    → build_packet payload sequence_id ≡ ok raw
    → (raw ≡ packet_bytes payload sequence_id) × (length payload < 256 ^ 3)
unfolding build_packet
build_packet_fits payload sequence_id h = ground arith

abbrev packet_of : Bytes → ℕ → MySqlPacket
packet_of payload sequence_id = record {
  sequence_id = sequence_id;
  payload = payload;
  raw = packet_bytes payload sequence_id;
}

-- A header of three bytes and a sequence id in front of a payload of the announced length.
header_frame :
    (max a b c s : ℕ) (payload more : Bytes)
    → from_bytes_le (a ∷ b ∷ c ∷ []) ≡ length payload
    → length payload + 4 ≤ max
    → next_packet max (a ∷ b ∷ c ∷ s ∷ (payload ++ more))
      ≡ frame (record { sequence_id = s; payload = payload; raw = a ∷ b ∷ c ∷ s ∷ payload }) more
unfolding next_packet
header_frame max a b c s payload more e fits =
    let total : ℕ = from_bytes_le (a ∷ b ∷ c ∷ []) + 4 in
    let four : total ≡ suc (suc (suc (suc (length payload)))) = omega (arith, e) in
    let cut : take total (a ∷ b ∷ c ∷ s ∷ (payload ++ more)) ≡ a ∷ b ∷ c ∷ s ∷ payload =
      rw four (ap (λ l. a ∷ b ∷ c ∷ s ∷ l) (take-length_append payload more)) in
    let left : drop total (a ∷ b ∷ c ∷ s ∷ (payload ++ more)) ≡ more =
      rw four (drop-length_append payload more) in
    ground (arith, length-append payload more)

-- A packet that `build_packet` makes is framed again, with whatever follows it left in the buffer.
next_packet-packet_bytes :
    (max : ℕ) (payload more : Bytes) (sequence_id : ℕ)
    → length payload < 256 ^ 3
    → length payload + 4 ≤ max
    → next_packet max (packet_bytes payload sequence_id ++ more)
      ≡ frame (packet_of payload sequence_id) more
unfolding to_bytes_le
next_packet-packet_bytes max payload more sequence_id small fits =
    let n = length payload in
    header_frame max (n % 256) (n / 256 % 256) (n / 256 / 256 % 256) sequence_id payload more
      (from_bytes_le-to_bytes_le 3 n small) fits

-- Through an empty framer, a built packet comes out with its payload and sequence id, before the
-- packets of the bytes behind it; only packets of at most `max_packet_bytes` bytes are concerned.
pub push-build_packet :
    (self : MySqlPacketFramer) (payload more : Bytes) (sequence_id : ℕ) {raw : Bytes}
    → self.buffer ≡ []
    → build_packet payload sequence_id ≡ ok raw
    → length payload + 4 ≤ self.max_packet_bytes
    → push self (raw ++ more) ≡ (
      prepend
          (record { sequence_id = sequence_id; payload = payload; raw = raw } ∷ [])
          (push self more).0,
      (push self more).1,
    )
unfolding push
push-build_packet self payload more sequence_id {raw} empty h fits =
    let max = self.max_packet_bytes in
    let (e, small) = build_packet_fits payload sequence_id h in
    rw (empty, e)
      (ap (self_with max) (
        push_loop_frame max _ (length more) (packet_bytes payload sequence_id ++ more) []
          (omega arith) (omega arith)
          (next_packet-packet_bytes max payload more sequence_id small fits)
        ∙ push_loop-prepend max (length more) more (packet_of payload sequence_id ∷ []) []))

-- After a successful `push` the framer holds fewer bytes than one packet may have.
pub push-lt-max_packet_bytes :
    (self : MySqlPacketFramer) (chunk : Bytes) {ps : List MySqlPacket} {self' : MySqlPacketFramer}
    → 4 ≤ self.max_packet_bytes
    → push self chunk ≡ (ok ps, self')
    → length self'.buffer < self.max_packet_bytes
push-lt-max_packet_bytes self chunk {ps} {self'} m h =
    let d : Delivers self.max_packet_bytes (self.buffer ++ chunk) (ok ps, self'.buffer) =
      rw h at (push-Delivers self chunk) in
    next_packet_wait self.max_packet_bytes self'.buffer m d.1
