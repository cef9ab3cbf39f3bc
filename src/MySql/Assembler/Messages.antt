-- ===== src/MySql/Assembler/Messages.antt =====
-- The packets of one logical message, put together by the assembler.
use ohmydb_proxy.Prelude.{
  ==_iff, Bytes, List, Option, Result, [], ap, append_assoc, arith, err, false, join, length, ltb,
  map, none, ok, refl, some, value_or, ℕ, ◌%◌, ◌++◌, ◌+◌, ◌==◌, ◌∙◌, ◌∷◌, ◌≡◌, ◌≢◌, ◌≤◌,
}
use ohmydb_proxy.MySql.Constants.{max_packet_payload}
use ohmydb_proxy.MySql.Packet.{MySqlLogicalMessage, MySqlPacket}
use ohmydb_proxy.MySql.Assembler.{MySqlLogicalMessageAssembler, accept, push, total_length}
use ohmydb_proxy.MySql.Assembler.Invariant.{total_length-append}

abbrev stops :
    Result (Option MySqlLogicalMessage) × MySqlLogicalMessageAssembler
    → Result (Option MySqlLogicalMessage) × MySqlLogicalMessageAssembler
    → Result (Option MySqlLogicalMessage) × MySqlLogicalMessageAssembler
stops (ok none, self) rest = rest
stops (ok (some m), self) rest = (ok (some m), self)
stops (err e, self) rest = (err e, self)

-- The packets are pushed one after the other, up to the first message or error.
pub feed :
    MySqlLogicalMessageAssembler
    → List MySqlPacket
    → Result (Option MySqlLogicalMessage) × MySqlLogicalMessageAssembler
feed self [] = (ok none, self)
feed self (p ∷ ps) = stops (push self p) (feed (push self p).1 ps)

-- The sequence ids count up from `s`, modulo 256.
abbrev pub Consecutive : ℕ → List MySqlPacket → Type 0
Consecutive s [] = Unit {0}
Consecutive s (p ∷ ps) = (p.sequence_id ≡ s) × Consecutive ((s + 1) % 256) ps

-- All packets but the last are full: such a payload says that another packet follows.
abbrev pub IsMessage : List MySqlPacket → Type 0
IsMessage [] = ⊥
IsMessage (p ∷ []) = length p.payload ≢ max_packet_payload
IsMessage (p ∷ q ∷ ps) = (length p.payload ≡ max_packet_payload) × IsMessage (q ∷ ps)

abbrev pub payloads : List MySqlPacket → List Bytes
payloads = map (λ p. p.payload)

abbrev pub raws : List MySqlPacket → List Bytes
raws = map (λ p. p.raw)

abbrev pub last_id : ℕ → List MySqlPacket → ℕ
last_id s [] = s
last_id s (p ∷ ps) = last_id p.sequence_id ps

-- The assembler in the middle of a message.
abbrev within : ℕ → List Bytes → List Bytes → ℕ → ℕ → ℕ → MySqlLogicalMessageAssembler
within max parts raw_parts first last count = record {
  max_message_bytes = max;
  payload_parts = parts;
  raw_parts = raw_parts;
  first_sequence_id = some first;
  last_sequence_id = some last;
  packet_count = count;
}

abbrev pub idle : ℕ → MySqlLogicalMessageAssembler
idle max = record {
  max_message_bytes = max;
  payload_parts = [];
  raw_parts = [];
  first_sequence_id = none;
  last_sequence_id = none;
  packet_count = 0;
}

accept_full :
    (self : MySqlLogicalMessageAssembler) (p : MySqlPacket)
    → total_length self.payload_parts + length p.payload ≤ self.max_message_bytes
    → length p.payload ≡ max_packet_payload
    → accept self p ≡ (
      ok none,
      within self.max_message_bytes
          (self.payload_parts ++ (p.payload ∷ []))
          (self.raw_parts ++ (p.raw ∷ []))
          (value_or self.first_sequence_id p.sequence_id)
          p.sequence_id
          (self.packet_count + 1),
    )
unfolding accept
accept_full self p fits full =
    let e : ltb self.max_message_bytes (total_length (self.payload_parts ++ (p.payload ∷ [])))
        ≡ false =
      ground (arith, total_length-append self.payload_parts (p.payload ∷ [])) in
    rw (e, (==_iff (length p.payload) max_packet_payload).1 full)

accept_last :
    (self : MySqlLogicalMessageAssembler) (p : MySqlPacket)
    → total_length self.payload_parts + length p.payload ≤ self.max_message_bytes
    → length p.payload ≢ max_packet_payload
    → accept self p ≡ (
      ok (
          some (record {
            first_sequence_id = value_or self.first_sequence_id p.sequence_id;
            last_sequence_id = p.sequence_id;
            payload = join (self.payload_parts ++ (p.payload ∷ []));
            raw_packets = join (self.raw_parts ++ (p.raw ∷ []));
            packet_count = self.packet_count + 1;
          })),
      idle self.max_message_bytes,
    )
unfolding accept
accept_last self p fits short =
    let e : ltb self.max_message_bytes (total_length (self.payload_parts ++ (p.payload ∷ [])))
        ≡ false =
      ground (arith, total_length-append self.payload_parts (p.payload ∷ [])) in
    let e' : (length p.payload == max_packet_payload) ≡ false = ground arith in rw (e, e')

-- The message of `packets`, in front of which the parts given were collected.
abbrev message_of : List Bytes → List Bytes → ℕ → ℕ → List MySqlPacket → MySqlLogicalMessage
message_of parts raw_parts first count packets = record {
  first_sequence_id = first;
  last_sequence_id = last_id 0 packets;
  payload = join (parts ++ payloads packets);
  raw_packets = join (raw_parts ++ raws packets);
  packet_count = count + length packets;
}

push_within :
    (max : ℕ) (parts raw_parts : List Bytes) (first last count : ℕ) (p : MySqlPacket)
    → p.sequence_id ≡ (last + 1) % 256
    → push (within max parts raw_parts first last count) p
      ≡ accept (within max parts raw_parts first last count) p
unfolding push
push_within max parts raw_parts first last count p e = ground (arith, e)

-- After a packet that completes nothing, the rest is fed to the new state.
feed_step :
    (self : MySqlLogicalMessageAssembler) (p : MySqlPacket) (ps : List MySqlPacket)
    {next : MySqlLogicalMessageAssembler}
    → push self p ≡ (ok none, next)
    → feed self (p ∷ ps) ≡ feed next ps
unfolding feed
feed_step self p ps e = rw e

feed_stop :
    (self : MySqlLogicalMessageAssembler) (p : MySqlPacket) (ps : List MySqlPacket)
    {m : MySqlLogicalMessage} {next : MySqlLogicalMessageAssembler}
    → push self p ≡ (ok (some m), next)
    → feed self (p ∷ ps) ≡ (ok (some m), next)
unfolding feed
feed_stop self p ps e = rw e

message_of_regroup :
    (parts raw_parts : List Bytes) (first count : ℕ) (p : MySqlPacket) (ps : List MySqlPacket)
    → message_of (parts ++ (p.payload ∷ [])) (raw_parts ++ (p.raw ∷ [])) first (count + 1) ps
      ≡ record (message_of parts raw_parts first count (p ∷ ps)) { last_sequence_id = last_id 0 ps }
message_of_regroup parts raw_parts first count p ps =
    rw
      (
        append_assoc parts (p.payload ∷ []) (payloads ps),
        append_assoc raw_parts (p.raw ∷ []) (raws ps),
      )
      (ground arith)

feed_within :
    (max : ℕ) (parts raw_parts : List Bytes) (first last count : ℕ) (ps : List MySqlPacket)
    → Consecutive ((last + 1) % 256) ps
    → IsMessage ps
    → total_length parts + total_length (payloads ps) ≤ max
    → feed (within max parts raw_parts first last count) ps
      ≡ (ok (some (message_of parts raw_parts first count ps)), idle max)
feed_within max parts raw_parts first last count [] c m fits = absurd m
feed_within max parts raw_parts first last count (p ∷ []) c m fits = feed_stop _ p [] (
    push_within max parts raw_parts first last count p c.0
    ∙ accept_last (within max parts raw_parts first last count) p (omega arith) m)
feed_within max parts raw_parts first last count (p ∷ q ∷ ps) c m fits =
    feed_step _ p (q ∷ ps) (
      push_within max parts raw_parts first last count p c.0
      ∙ accept_full (within max parts raw_parts first last count) p (omega arith) m.0)
    ∙ feed_within max (parts ++ (p.payload ∷ [])) (raw_parts ++ (p.raw ∷ [])) first p.sequence_id
        (count + 1) (q ∷ ps) (rw c.0 c.1) m.1
        (omega (arith, total_length-append parts (p.payload ∷ [])))
    ∙ ap (λ m. (ok (some m), idle max)) (message_of_regroup parts raw_parts first count p (q ∷ ps))

push-idle : (max : ℕ) (p : MySqlPacket) → push (idle max) p ≡ accept (idle max) p
unfolding push
push-idle max p = refl

abbrev first_from : ℕ → List MySqlPacket → MySqlLogicalMessage
first_from s ps = record {
  first_sequence_id = s;
  last_sequence_id = last_id 0 ps;
  payload = join (payloads ps);
  raw_packets = join (raws ps);
  packet_count = length ps;
}

-- An idle assembler that is fed the packets of one message, numbered from `s` and within the
-- limit, returns it on the last packet: the payloads and the raw bytes in order, the first and
-- last sequence id and the number of packets. Then it is idle again.
pub feed-message :
    (max s : ℕ) (ps : List MySqlPacket)
    → Consecutive s ps
    → IsMessage ps
    → total_length (payloads ps) ≤ max
    → feed (idle max) ps ≡ (
      ok (
          some (record {
            first_sequence_id = s;
            last_sequence_id = last_id 0 ps;
            payload = join (payloads ps);
            raw_packets = join (raws ps);
            packet_count = length ps;
          })),
      idle max,
    )
feed-message max s [] c m fits = absurd m
feed-message max s (p ∷ []) c m fits =
    feed_stop (idle max) p [] (push-idle max p ∙ accept_last (idle max) p (omega arith) m)
    ∙ ap (λ n. (ok (some (first_from n (p ∷ []))), idle max)) c.0
feed-message max s (p ∷ q ∷ ps) c m fits =
    feed_step (idle max) p (q ∷ ps) (push-idle max p ∙ accept_full (idle max) p (omega arith) m.0)
    ∙ feed_within max (p.payload ∷ []) (p.raw ∷ []) p.sequence_id p.sequence_id 1 (q ∷ ps)
        (rw c.0 c.1) m.1 (omega arith)
    ∙ ap
        (λ n. (
          ok (some (record (first_from p.sequence_id (p ∷ q ∷ ps)) { packet_count = n })),
          idle max,
        ))
        count
    ∙ ap (λ n. (ok (some (first_from n (p ∷ q ∷ ps))), idle max)) c.0
  where
    count : 1 + length (q ∷ ps) ≡ length (p ∷ q ∷ ps)
    count = omega arith
