-- ===== src/MySql/Framer/Rounds.antt =====
-- One round of the loop of `MySqlPacketFramer.push`, read backwards, and with more input behind.
use ohmydb_proxy.Prelude.{
  Bytes, Error, ap, arith, drop, drop-append, from_bytes_le, get_elem?, inl, inr, length,
  length-append, length-take, refl, some, take, take-append, take-append-drop, ℕ, ◌++◌, ◌+◌, ◌<◌,
  ◌∙◌, ◌≡◌, ◌≤◌, ◌⊎◌,
}
use ohmydb_proxy.MySql.Packet.{MySqlPacket}
use ohmydb_proxy.MySql.Framer.{Round, frame, next_packet, reject, wait}

-- What a framed packet is: a cut of the buffer, with its length in front.
pub record IsFramed (max : ℕ) (buffer : Bytes) (p : MySqlPacket) (rest : Bytes) : Type 0 where
  pub whole : buffer ≡ p.raw ++ rest
  pub raw_length : length p.raw ≡ from_bytes_le (take 3 buffer) + 4
  pub fits : length p.raw ≤ max
  pub payload : p.payload ≡ drop 4 p.raw
  pub sequence : get_elem? p.raw 3 ≡ some p.sequence_id

pub next_packet-IsFramed :
    (max : ℕ) (buffer : Bytes) {p : MySqlPacket} {rest : Bytes}
    → next_packet max buffer ≡ frame p rest
    → IsFramed max buffer p rest
unfolding next_packet
next_packet-IsFramed max buffer h =
    let total = from_bytes_le (take 3 buffer) + 4 in
    ground (arith, length-take total buffer, take-append-drop total buffer)

-- A packet takes at least its header off the buffer.
pub next_packet_shrinks :
    (max : ℕ) (buffer : Bytes) {p : MySqlPacket} {rest : Bytes}
    → next_packet max buffer ≡ frame p rest
    → length rest + 4 ≤ length buffer
next_packet_shrinks max buffer {p} {rest} h =
    let framed = next_packet-IsFramed max buffer h in
    let e : length buffer ≡ length p.raw + length rest =
      ap length framed.whole ∙ length-append p.raw rest in
    omega (arith, e, framed.raw_length)

pub next_packet_short :
    (max : ℕ) (buffer : Bytes) → length buffer < 4 → next_packet max buffer ≡ wait
unfolding next_packet
next_packet_short max buffer h = ground arith

-- The loop breaks on an incomplete packet, whose announced size has passed the limit's test.
pub next_packet_wait :
    (max : ℕ) (buffer : Bytes) → 4 ≤ max → next_packet max buffer ≡ wait → length buffer < max
unfolding next_packet
next_packet_wait max buffer m h = ground arith

-- A complete packet is framed alike, whatever bytes follow it.
pub next_packet_frame-append :
    (max : ℕ) (buffer more : Bytes) {p : MySqlPacket} {rest : Bytes}
    → next_packet max buffer ≡ frame p rest
    → next_packet max (buffer ++ more) ≡ frame p (rest ++ more)
unfolding next_packet
next_packet_frame-append max buffer more h =
    let total = from_bytes_le (take 3 buffer) + 4 in
    ground (
      arith,
      length-append buffer more,
      take-append 3 buffer more,
      take-append total buffer more,
      drop-append total buffer more,
    )

-- So is a packet beyond the limit refused.
pub next_packet_reject-append :
    (max : ℕ) (buffer more : Bytes) {e : Error}
    → next_packet max buffer ≡ reject e
    → next_packet max (buffer ++ more) ≡ reject e
unfolding next_packet
next_packet_reject-append max buffer more h =
    let total = from_bytes_le (take 3 buffer) + 4 in
    ground (
      arith,
      length-append buffer more,
      take-append 3 buffer more,
      take-append total buffer more,
      drop-append total buffer more,
    )

pub Round-cases :
    (r : Round)
    → (r ≡ wait)
      ⊎ (((e : Error) × (r ≡ reject e)) ⊎ ((p : MySqlPacket) × (rest : Bytes) × (r ≡ frame p rest)))
Round-cases wait = inl refl
Round-cases (reject e) = inr (inl (e, refl))
Round-cases (frame p rest) = inr (inr (p, rest, refl))
