-- ===== src/Postgres.antt =====
-- The PostgreSQL side of the proxy: its wire protocol, the state of a connection and its handlers.
pub mod Protocol
pub mod Framer
pub mod Startup
pub mod Extended
pub mod State
pub mod Preview
pub mod Handler
pub mod Connection
