-- ===== src/Postgres/Connection/Reach.antt =====
-- What the backend of a PostgreSQL connection may get, over all orders of the two sides' chunks.
use ohmydb_proxy.Prelude.{Bytes, List}
use ohmydb_proxy.Proxy.Laws.{IsSilent, IsSilent-append, IsStrict}
use ohmydb_proxy.Proxy.{ProxyOptions, Sent}
use ohmydb_proxy.Proxy.Laws.{IsSilent, IsSilent-append, IsStrict}
use ohmydb_proxy.Postgres.Connection.{Connection, Reachable}
use ohmydb_proxy.Postgres.Connection.Steps.{IsSent}

-- What may reach the backend from a connection on: what a connection that steps lead to may write.
abbrev pub IsAllowed : ProxyOptions → Connection → Bytes → Type 0
IsAllowed opts first raw =
    (self : Connection) × (before : List Sent) × Reachable opts first (self, before)
    × IsSent opts self raw
