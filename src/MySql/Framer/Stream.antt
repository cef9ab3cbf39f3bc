-- ===== src/MySql/Framer/Stream.antt =====
-- `MySqlPacketFramer.push` as a whole: the bytes that it keeps, the limit on its buffer, packets
-- built by `build_packet`, and a stream cut into chunks.
use ohmydb_proxy.Prelude.{
  Bytes, List, Result, [], ap, append-nil, append_assoc, arith, err, inl, inr, length,
  length-append, ok, refl, suc, zero, ℕ, ◌++◌, ◌∙◌, ◌∷◌, ◌≡◌, ◌≤◌,
}
use ohmydb_proxy.MySql.Packet.{MySqlPacket}
use ohmydb_proxy.MySql.Framer.{MySqlPacketFramer, next_packet, push, push_loop, reject, wait}
use ohmydb_proxy.MySql.Framer.Rounds.{
  IsFramed, Round-cases, next_packet-IsFramed, next_packet_short, next_packet_shrinks,
}
use ohmydb_proxy.MySql.Framer.Loop.{push_loop-append, push_loop_fuel, resume}

-- The packets `front` before those of a successful outcome.
abbrev pub prepend : List MySqlPacket → Result (List MySqlPacket) → Result (List MySqlPacket)
prepend front (ok ps) = ok (front ++ ps)
prepend front (err e) = err e

pub push_loop-prepend :
    (max fuel : ℕ) (buffer : Bytes) (front packets : List MySqlPacket)
    → push_loop max fuel buffer (front ++ packets)
      ≡ (prepend front (push_loop max fuel buffer packets).0, (push_loop max fuel buffer packets).1)
unfolding push_loop
push_loop-prepend max zero buffer front packets = refl
push_loop-prepend max (suc fuel) buffer front packets =
    elim (Round-cases (next_packet max buffer)) [
      | inl e ↦ rw (e, push_loop)
      | inr (inl (x, e)) ↦ rw (e, push_loop)
      | inr (inr (p, rest, e)) ↦
          rw (e, push_loop, append_assoc)
            (push_loop-prepend max fuel rest front (packets ++ (p ∷ [])))
    ]

-- What a client of the framer sees after a first chunk and then a second one. An error ends the
-- stream: later bytes are kept and not looked at.
pub push_next :
    Result (List MySqlPacket) × MySqlPacketFramer
    → Bytes
    → Result (List MySqlPacket) × MySqlPacketFramer
push_next (ok ps, self) chunk = (prepend ps (push self chunk).0, (push self chunk).1)
push_next (err e, self) chunk = (err e, record self { buffer = self.buffer ++ chunk })

push_loop_shrinks :
    (max fuel : ℕ) (buffer : Bytes) (packets : List MySqlPacket)
    → length (push_loop max fuel buffer packets).1 ≤ length buffer
unfolding push_loop
push_loop_shrinks max zero buffer packets = omega arith
push_loop_shrinks max (suc fuel) buffer packets = elim (Round-cases (next_packet max buffer)) [
  | inl e ↦ rw (e, push_loop) (omega arith)
  | inr (inl (x, e)) ↦ rw (e, push_loop) (omega arith)
  | inr (inr (p, rest, e)) ↦
      rw (e, push_loop)
        (omega (
          arith,
          next_packet_shrinks max buffer e,
          push_loop_shrinks max fuel rest (packets ++ (p ∷ [])),
        ))
]

abbrev pub self_with :
    ℕ → Result (List MySqlPacket) × Bytes → Result (List MySqlPacket) × MySqlPacketFramer
self_with max o = (o.0, record { buffer = o.1; max_packet_bytes = max })

self_with-resume :
    (max n : ℕ) (chunk : Bytes) (o : Result (List MySqlPacket) × Bytes)
    → length (o.1 ++ chunk) ≤ n
    → self_with max (resume max n chunk o) ≡ push_next (self_with max o) chunk
unfolding resume push_next push
self_with-resume max n chunk (ok ps, rest) h = ap (self_with max) (
    push_loop_fuel max n (length (rest ++ chunk)) (rest ++ chunk) ps h (omega arith)
    ∙ rw append-nil at (push_loop-prepend max (length (rest ++ chunk)) (rest ++ chunk) ps []))
self_with-resume max n chunk (err e, rest) h = refl

-- A push of two chunks joined has the outcome of pushing the first and then, unless that raised, the
-- second: the same packets in the same order or the same exception, and the same buffer.
pub push-append :
    (self : MySqlPacketFramer) (first second : Bytes)
    → push self (first ++ second) ≡ push_next (push self first) second
unfolding push
push-append self first second =
    let max = self.max_packet_bytes in
    let buffer = self.buffer ++ first in
    let n = length (buffer ++ second) in
    rw (← append_assoc) (
      ap (self_with max) (
        push_loop-append max (length buffer) n n buffer second [] (omega arith) (omega arith)
          (omega arith))
      ∙ self_with-resume max n second (push_loop max (length buffer) buffer []) (
          omega (
            arith,
            length-append buffer second,
            length-append (push_loop max (length buffer) buffer []).1 second,
            push_loop_shrinks max (length buffer) buffer [],
          )))

-- The packets follow one another in the stream, each with its header's length and its sequence id.
abbrev pub Frames : ℕ → Bytes → List MySqlPacket → Bytes → Type 0
Frames max buffer [] rest = buffer ≡ rest
Frames max buffer (p ∷ ps) rest =
    (more : Bytes) × IsFramed max buffer p more × Frames max more ps rest

-- What the loop may answer on a buffer. After an error the packets framed before it are lost, and
-- the buffer begins with the packet that was refused.
abbrev pub Delivers : ℕ → Bytes → Result (List MySqlPacket) × Bytes → Type 0
Delivers max buffer (ok ps, rest) = Frames max buffer ps rest × (next_packet max rest ≡ wait)
Delivers max buffer (err e, rest) =
    (lost : List MySqlPacket) × Frames max buffer lost rest × (next_packet max rest ≡ reject e)

Delivers-prepend :
    (max : ℕ) (buffer more : Bytes) (p : MySqlPacket) (o : Result (List MySqlPacket) × Bytes)
    → IsFramed max buffer p more
    → Delivers max more o
    → Delivers max buffer (prepend (p ∷ []) o.0, o.1)
Delivers-prepend max buffer more p (ok ps, rest) framed h = ((more, framed, h.0), h.1)
Delivers-prepend max buffer more p (err e, rest) framed h = (p ∷ h.0, (more, framed, h.1), h.2)

push_loop-Delivers :
    (max fuel : ℕ) (buffer : Bytes)
    → length buffer ≤ fuel
    → Delivers max buffer (push_loop max fuel buffer [])
unfolding push_loop
push_loop-Delivers max zero buffer h = (refl, next_packet_short max buffer (omega arith))
push_loop-Delivers max (suc fuel) buffer h = elim (Round-cases (next_packet max buffer)) [
  | inl e ↦ rw (e, push_loop) (refl, e)
  | inr (inl (x, e)) ↦ rw (e, push_loop) ([], refl, e)
  | inr (inr (p, rest, e)) ↦
      rw (e, push_loop)
        (rw (push_loop-prepend max fuel rest (p ∷ []) []) (
          Delivers-prepend max buffer rest p (push_loop max fuel rest [])
            (next_packet-IsFramed max buffer e)
            (push_loop-Delivers max fuel rest (omega (arith, next_packet_shrinks max buffer e)))))
]

-- Every call of `push` frames the stream: on success the packets and the new buffer are the old
-- buffer and the chunk, and no complete packet is left; an error is that of the packet in front.
pub push-Delivers :
    (self : MySqlPacketFramer) (chunk : Bytes)
    → Delivers self.max_packet_bytes
        (self.buffer ++ chunk)
        ((push self chunk).0, (push self chunk).1.buffer)
unfolding push
push-Delivers self chunk =
    push_loop-Delivers self.max_packet_bytes _ (self.buffer ++ chunk) (omega arith)
