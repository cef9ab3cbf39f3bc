-- ===== src/Tests/Messages.antt =====
-- Instances for the assembler of logical messages.
use ohmydb_proxy.Prelude.{[], arith, ok, refl, some, ◌∷◌, ◌≡◌}
use ohmydb_proxy.MySql.Packet.{MySqlPacket}
use ohmydb_proxy.MySql.Assembler.{push}
use ohmydb_proxy.MySql.Assembler.Invariant.{IsPartial, push-IsPartial}
use ohmydb_proxy.MySql.Assembler.Messages.{feed, feed-message, idle}

-- The header and the payload of COM_PING with the sequence id 7.
abbrev ping_packet : MySqlPacket
ping_packet = record { sequence_id = 7; payload = 14 ∷ []; raw = 1 ∷ 0 ∷ 0 ∷ 7 ∷ 14 ∷ [] }

feed-message_example : feed (idle 100) (ping_packet ∷ []) ≡ (
  ok (
      some (record {
        first_sequence_id = 7;
        last_sequence_id = 7;
        payload = 14 ∷ [];
        raw_packets = 1 ∷ 0 ∷ 0 ∷ 7 ∷ 14 ∷ [];
        packet_count = 1;
      })),
  idle 100,
)
feed-message_example =
    feed-message 100 7 (ping_packet ∷ []) (refl, tt) (λ e. absurd (ground (arith, e))) (omega arith)

idle-IsPartial : IsPartial (idle 100)
idle-IsPartial = record {
  counted = refl;
  raw_counted = refl;
  first_set = refl;
  last_set = refl;
  within = omega arith;
  full = tt;
}

push-IsPartial_example : IsPartial (push (idle 100) ping_packet).1
push-IsPartial_example = push-IsPartial (idle 100) ping_packet idle-IsPartial
