-- ===== src/Player.antt =====
-- web-automator/app/player.py: the replay of a recipe in a page.
mod Tests
pub mod Page
pub mod Origin
pub mod Actions
pub mod Steps
pub mod Scripts
