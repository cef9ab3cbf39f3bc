-- ===== src/MySql.antt =====
-- The MySQL/MariaDB adapter: sql_safety_proxy/adapters/mysql.
pub mod Constants
pub mod Packet
pub mod Framer
pub mod Assembler
pub mod Command
pub mod Lenenc
pub mod Response
pub mod Handshake
pub mod Params
pub mod Reconstruct
pub mod Session
pub mod Auth
pub mod Backend
pub mod Handler
pub mod Dispatcher
pub mod Relay
