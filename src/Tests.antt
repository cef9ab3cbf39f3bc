-- ===== src/Tests.antt =====
-- Runs of the code and instances of the theorems at concrete inputs.
mod Wire
mod Responses
mod Logins
mod Messages
mod State
mod Rules
mod Decisions
mod Dispatch
mod Frames
mod Extended
mod Portals
mod Relays
