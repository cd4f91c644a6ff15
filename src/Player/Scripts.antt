-- ===== src/Player/Scripts.antt =====
-- The scripts that the player runs in a page, on what they read of the document.
pub mod Grid
pub mod Tables
