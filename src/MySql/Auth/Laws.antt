-- ===== src/MySql/Auth/Laws.antt =====
-- When a connection counts as authenticated.
use ohmydb_proxy.Prelude.{
  Bool, Bool-cases, Bytes, Error, Result-cases, [], ap, arith, err, false, inl, inr, ok, refl, true,
  ℕ, ◌==◌, ◌∙◌, ◌∷◌, ◌≡◌,
}
use ohmydb_proxy.MySql.Packet.{MySqlPacket}
use ohmydb_proxy.MySql.Command.{starts_with_byte}
use ohmydb_proxy.MySql.Handshake.{MySqlHandshakeResponse}
use ohmydb_proxy.MySql.Auth.{
  MySqlAuthState, MySqlBackendAuthPacket, accept_backend_packet, accept_client_response,
  after_packet, auth_more_data, auth_switch, classify_backend_auth_packet, error_packet,
  is_authenticated, is_authenticating, is_waiting, ok_packet, other_packet, packet_of_marker,
  tls_rejected,
}

after_packet-authenticated :
    (t : MySqlBackendAuthPacket) (self : MySqlAuthState)
    → is_authenticated self.phase ≡ false
    → is_authenticated (after_packet t self).phase ≡ true
    → t ≡ ok_packet
after_packet-authenticated ok_packet self n h = refl
after_packet-authenticated error_packet self n h = absurd (ground (arith, h))
after_packet-authenticated auth_switch self n h = absurd (ground (arith, n, h))
after_packet-authenticated auth_more_data self n h = absurd (ground (arith, n, h))
after_packet-authenticated other_packet self n h = absurd (ground (arith, n, h))

abbrev is_ok_packet : MySqlBackendAuthPacket → Bool
is_ok_packet ok_packet = true
is_ok_packet _ = false

packet_of_marker-ok : (m : ℕ) → is_ok_packet (packet_of_marker m) ≡ true → (m == 0x00) ≡ true
unfolding packet_of_marker
packet_of_marker-ok m h = elim (Bool-cases (m == 0x00)) [
  | inl z ↦ z
  | inr z ↦ elim (Bool-cases (m == 0xff)) [
    | inl e ↦ absurd (ground (arith, z, e, h))
    | inr e ↦ elim (Bool-cases (m == 0xfe)) [
      | inl s ↦ absurd (ground (arith, z, e, s, h))
      | inr s ↦ absurd (ground (arith, z, e, s, h))
    ]
  ]
]

classify_backend_auth_packet-ok :
    (packet : MySqlPacket)
    → classify_backend_auth_packet packet ≡ ok ok_packet
    → starts_with_byte 0x00 packet.payload ≡ true
unfolding classify_backend_auth_packet starts_with_byte
classify_backend_auth_packet-ok packet h = by_payload packet.payload refl
  where
    by_payload : (payload : Bytes) → packet.payload ≡ payload → starts_with_byte 0x00 payload ≡ true
    by_payload [] e = absurd (ground (arith, e, h))
    by_payload (b ∷ bs) e =
        let t : packet_of_marker b ≡ ok_packet = ground (arith, e, h) in
        packet_of_marker-ok b (ap is_ok_packet t)

-- A backend packet makes a connection authenticated only if the client's response came before, the
-- backend has not yet decided, and the packet is an OK packet.
pub accept_backend_packet-authenticated :
    (self : MySqlAuthState) (packet : MySqlPacket)
    → is_authenticated self.phase ≡ false
    → is_authenticated (accept_backend_packet self packet).1.phase ≡ true
    → (is_authenticating self.phase ≡ true) × (starts_with_byte 0x00 packet.payload ≡ true)
unfolding accept_backend_packet
accept_backend_packet-authenticated self packet n h =
    elim (Bool-cases (is_authenticating self.phase)) [
      | inr a ↦ absurd (ground (arith, a, n, h))
      | inl a ↦ elim (Result-cases (classify_backend_auth_packet packet)) [
        | inr (e, c) ↦ absurd (ground (arith, a, c, n, h))
        | inl (t, c) ↦
            let authenticated : is_authenticated (after_packet t self).phase ≡ true =
              ground (arith, a, c, h) in
            let is_ok = after_packet-authenticated t self n authenticated in
            (a, classify_backend_auth_packet-ok packet (c ∙ ap ok is_ok))
      ]
    ]

-- Once the client asked for TLS, no backend packet changes the authentication: each is refused.
pub tls_rejected-refused :
    (self : MySqlAuthState) (response : MySqlHandshakeResponse) (packet : MySqlPacket)
    → is_waiting self.phase ≡ true
    → response.is_ssl_request ≡ true
    → let rejected = (accept_client_response self response).1 in
      (rejected.phase ≡ tls_rejected)
      × ((accept_backend_packet rejected packet).1 ≡ rejected)
      × ((e : Error) × ((accept_backend_packet rejected packet).0 ≡ err e))
unfolding accept_client_response accept_backend_packet
tls_rejected-refused self response packet w s = rw (w, s) (refl, refl, (_, refl))
