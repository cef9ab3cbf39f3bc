-- ===== src/Tests/Frames.antt =====
-- Runs and instances for the framing of the PostgreSQL protocol.
use ohmydb_proxy.Prelude.{
  Bytes, Result, Text, [], decode_ascii, decode_utf8, find_null, from_bytes_be, from_bytes_le,
  is_settled, lit, ok, refl, some, text_eq, to_signed, true, unpack_signed, ◌++◌, ◌∷◌, ◌≡◌,
}
use ohmydb_proxy.Prelude.Dict.{Dict, insert}
use ohmydb_proxy.Postgres.Protocol.{Message}
use ohmydb_proxy.Postgres.Framer
use ohmydb_proxy.Postgres.Framer.{MessageFramer}
use ohmydb_proxy.Postgres.Framer.Laws.{push_joined, push_next}
use ohmydb_proxy.Postgres.Startup.{parse_startup_params}
use ohmydb_proxy.Postgres.Startup.Laws.{parse_startup_params_ends}
use ohmydb_proxy.Postgres.Handler.{}

abbrev pub empty_buffer : MessageFramer
empty_buffer = record { buffer = []; max_message_bytes = 100 }

-- A Sync message.
abbrev pub sync_bytes : Bytes
sync_bytes = b'S' ∷ 0 ∷ 0 ∷ 0 ∷ 4 ∷ []

abbrev pub sync : Message
sync = record { type = b'S' ∷ []; payload = []; raw = sync_bytes }

-- The message comes out when its last byte is there.
split_runs :
    Framer.push (record { buffer = b'S' ∷ 0 ∷ 0 ∷ []; max_message_bytes = 100 }) (0 ∷ 4 ∷ b'X' ∷ [])
    ≡ (ok (sync ∷ []), record { buffer = b'X' ∷ []; max_message_bytes = 100 })
unfolding Framer.push ohmydb_proxy.Framing.loop Framer.next_message unpack_signed to_signed
    from_bytes_be from_bytes_le decode_ascii
split_runs = refl

push_joined_example :
    Framer.push empty_buffer ((b'S' ∷ 0 ∷ 0 ∷ []) ++ (0 ∷ 4 ∷ b'X' ∷ []))
    ≡ push_next (Framer.push empty_buffer (b'S' ∷ 0 ∷ 0 ∷ [])) (0 ∷ 4 ∷ b'X' ∷ [])
push_joined_example = push_joined empty_buffer (b'S' ∷ 0 ∷ 0 ∷ []) (0 ∷ 4 ∷ b'X' ∷ [])

-- The user "me" of the database "db".
abbrev pub hello : Bytes
hello =
    0
    ∷ 0
    ∷ 0
    ∷ 29
    ∷ 0
    ∷ 3
    ∷ 0
    ∷ 0
    ∷ (lit "user" ++ (0 ∷ (lit "me" ++ (0 ∷ (lit "database" ++ (0 ∷ (lit "db" ++ (0 ∷ 0 ∷ []))))))))

startup_runs :
    parse_startup_params hello
    ≡ some (ok ((lit "user", lit "me") ∷ (lit "database", lit "db") ∷ []))
unfolding parse_startup_params lit unpack_signed to_signed from_bytes_be from_bytes_le find_null
    decode_utf8 insert text_eq
startup_runs = refl

parse_startup_params_ends_example :
    (r : Result (Dict Text)) × (parse_startup_params hello ≡ some r) × (is_settled r ≡ true)
parse_startup_params_ends_example = parse_startup_params_ends hello
