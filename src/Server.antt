-- ===== src/Server.antt =====
-- web-automator/app/main.py: the sidecar's routes, their state, and a play's own browser.
mod Tests
pub mod Auth
pub mod State
pub mod Session
pub mod Responses
pub mod Recording
pub mod Play
