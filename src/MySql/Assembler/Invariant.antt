-- ===== src/MySql/Assembler/Invariant.antt =====
-- What the assembler keeps between two packets.
use ohmydb_proxy.Prelude.{
  ==_iff, All, All-append, Bool-cases, Bytes, List, Option, [], arith, inl, inr, is_some, length,
  length-append, ltb, ltb-false→le, none, refl, some, ℕ, ◌!=◌, ◌%◌, ◌++◌, ◌+◌, ◌==◌, ◌∷◌, ◌≡◌, ◌≤◌,
}
use ohmydb_proxy.MySql.Constants.{max_packet_payload}
use ohmydb_proxy.MySql.Packet.{MySqlPacket}
use ohmydb_proxy.MySql.Assembler.{
  MySqlLogicalMessageAssembler, accept, push, push_after, reset, total_length,
}

-- The counter and the two lists agree, the sequence ids are set when a message has begun, the
-- payloads so far stay within the limit, and each of them is full.
pub record IsPartial (self : MySqlLogicalMessageAssembler) : Type 0 where
  pub counted : self.packet_count ≡ length self.payload_parts
  pub raw_counted : self.packet_count ≡ length self.raw_parts
  pub first_set : is_some self.first_sequence_id ≡ ltb 0 self.packet_count
  pub last_set : is_some self.last_sequence_id ≡ ltb 0 self.packet_count
  pub within : total_length self.payload_parts ≤ self.max_message_bytes
  pub full : All (λ part. length part ≡ max_packet_payload) self.payload_parts

pub IsPartial-reset : (self : MySqlLogicalMessageAssembler) → IsPartial (reset self)
unfolding reset
IsPartial-reset self = record {
  counted = refl;
  raw_counted = refl;
  first_set = refl;
  last_set = refl;
  within = omega arith;
  full = tt;
}

pub total_length-append :
    (xs ys : List Bytes) → total_length (xs ++ ys) ≡ total_length xs + total_length ys
total_length-append [] ys = omega arith
total_length-append (x ∷ xs) ys = omega (arith, total_length-append xs ys)

abbrev IsFull : Bytes → Type 0
IsFull part = length part ≡ max_packet_payload

-- Every packet, accepted or refused, leaves such a state.
accept-IsPartial :
    (self : MySqlLogicalMessageAssembler) (packet : MySqlPacket)
    → IsPartial self
    → IsPartial (accept self packet).1
unfolding accept
accept-IsPartial self packet v =
    elim (Bool-cases
      (ltb self.max_message_bytes (total_length (self.payload_parts ++ (packet.payload ∷ []))))) [
        | inl over ↦ rw over (IsPartial-reset self)
        | inr fits ↦ elim (Bool-cases (length packet.payload == max_packet_payload)) [
          | inl full ↦
              rw (fits, full)
                (record {
                  counted =
                      omega
                        (arith, length-append self.payload_parts (packet.payload ∷ []), v.counted);
                  raw_counted =
                      omega (arith, length-append self.raw_parts (packet.raw ∷ []), v.raw_counted);
                  first_set = ground arith;
                  last_set = ground arith;
                  within = ltb-false→le _ _ fits;
                  full =
                      All-append IsFull self.payload_parts (packet.payload ∷ []) v.full
                        ((==_iff _ _).0 full, tt);
                })
          | inr short ↦ rw (fits, short) (IsPartial-reset self)
        ]
      ]

-- A state whose counter and lists agree and stay within the limit is followed by such a state, for
-- every packet, accepted or refused.
pub push-IsPartial :
    (self : MySqlLogicalMessageAssembler) (packet : MySqlPacket)
    → IsPartial self
    → IsPartial (push self packet).1
unfolding push
push-IsPartial self packet v = by_last self.last_sequence_id
  where
    by_last : (last : Option ℕ) → IsPartial (push_after last self packet).1
    by_last none = accept-IsPartial self packet v
    by_last (some last) = elim (Bool-cases (packet.sequence_id != (last + 1) % 256)) [
      | inl differs ↦ rw differs (IsPartial-reset self)
      | inr same ↦ rw same (accept-IsPartial self packet v)
    ]
