-- ===== src/MySql/Framer/Loop.antt =====
-- The loop of `MySqlPacketFramer.push`: enough fuel, and a stream that comes in two chunks.
use ohmydb_proxy.Prelude.{
  Bytes, Error, List, Result, [], arith, err, inl, inr, length, length-append, ok, refl, suc, zero,
  ℕ, ◌++◌, ◌∙◌, ◌∷◌, ◌≡◌, ◌≤◌,
}
use ohmydb_proxy.MySql.Packet.{MySqlPacket}
use ohmydb_proxy.MySql.Framer.{frame, next_packet, push_loop, reject}
use ohmydb_proxy.MySql.Framer.Rounds.{
  Round-cases, next_packet_frame-append, next_packet_reject-append, next_packet_short,
  next_packet_shrinks,
}

-- Beyond the length of the buffer, more fuel changes nothing.
pub push_loop_fuel :
    (max f g : ℕ) (buffer : Bytes) (packets : List MySqlPacket)
    → length buffer ≤ f
    → length buffer ≤ g
    → push_loop max f buffer packets ≡ push_loop max g buffer packets
unfolding push_loop
push_loop_fuel max zero zero buffer packets hf hg = refl
push_loop_fuel max zero (suc g) buffer packets hf hg =
    rw (next_packet_short max buffer (omega arith), push_loop)
push_loop_fuel max (suc f) zero buffer packets hf hg =
    rw (next_packet_short max buffer (omega arith), push_loop)
push_loop_fuel max (suc f) (suc g) buffer packets hf hg =
    elim (Round-cases (next_packet max buffer)) [
      | inl e ↦ rw (e, push_loop)
      | inr (inl (x, e)) ↦ rw (e, push_loop)
      | inr (inr (p, rest, e)) ↦
          rw (e, push_loop)
            (let s = next_packet_shrinks max buffer e in
              push_loop_fuel max f g rest (packets ++ (p ∷ [])) (omega arith) (omega arith))
    ]

-- The outcome of the loop on a buffer, with `more` behind it: an error stays, and after a success
-- the loop goes on with what was left.
unfoldable pub resume :
    ℕ → ℕ → Bytes → Result (List MySqlPacket) × Bytes → Result (List MySqlPacket) × Bytes
resume max fuel more (ok packets, rest) = push_loop max fuel (rest ++ more) packets
resume max fuel more (err e, rest) = (err e, rest ++ more)

reject_unless_short :
    (max g : ℕ) (buffer : Bytes) (packets : List MySqlPacket) {e : Error}
    → length buffer ≤ g
    → next_packet max buffer ≡ reject e
    → push_loop max g buffer packets ≡ (err e, buffer)
unfolding push_loop
reject_unless_short max zero buffer packets h r = cc (next_packet_short max buffer (omega arith))
reject_unless_short max (suc g) buffer packets h r = rw (r, push_loop)

-- One round of the loop, with fuel for the whole buffer.
pub push_loop_frame :
    (max g h : ℕ) (buffer : Bytes) (packets : List MySqlPacket) {p : MySqlPacket} {rest : Bytes}
    → length buffer ≤ g
    → length rest ≤ h
    → next_packet max buffer ≡ frame p rest
    → push_loop max g buffer packets ≡ push_loop max h rest (packets ++ (p ∷ []))
unfolding push_loop
push_loop_frame max zero h buffer packets hg hh r = cc (next_packet_short max buffer (omega arith))
push_loop_frame max (suc g) h buffer packets {p} {rest} hg hh r =
    rw (r, push_loop)
      (let s = next_packet_shrinks max buffer r in
        push_loop_fuel max g h rest (packets ++ (p ∷ [])) (omega arith) hh)

pub push_loop-append :
    (max f g h : ℕ) (buffer more : Bytes) (packets : List MySqlPacket)
    → length buffer ≤ f
    → length (buffer ++ more) ≤ g
    → length (buffer ++ more) ≤ h
    → push_loop max g (buffer ++ more) packets ≡ resume max h more (push_loop max f buffer packets)
unfolding push_loop resume
push_loop-append max zero g h buffer more packets hf hg hh =
    push_loop_fuel max g h (buffer ++ more) packets hg hh
push_loop-append max (suc f) g h buffer more packets hf hg hh =
    elim (Round-cases (next_packet max buffer)) [
      | inl e ↦ rw (e, push_loop) (push_loop_fuel max g h (buffer ++ more) packets hg hh)
      | inr (inl (x, e)) ↦
          rw (e, push_loop)
            (reject_unless_short max g (buffer ++ more) packets hg
              (next_packet_reject-append max buffer more e))
      | inr (inr (p, rest, e)) ↦
          let s = next_packet_shrinks max buffer e in
          let l = length-append rest more in
          let k = length-append buffer more in
          rw (e, push_loop)
            (push_loop_frame max g g (buffer ++ more) packets hg (omega arith)
                (next_packet_frame-append max buffer more e)
              ∙ push_loop-append max f g h rest more (packets ++ (p ∷ [])) (omega arith)
                  (omega arith) (omega arith))
    ]
