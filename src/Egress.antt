-- ===== src/Egress.antt =====
-- web-automator/app/egress.py: the filtering forward proxy that every request of the player's
-- browser goes through.
mod Tests
pub mod Run
pub mod Address
pub mod Wire
pub mod Proxy
pub mod Tunnel
pub mod Lifecycle
