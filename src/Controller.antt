-- ===== src/Controller.antt =====
-- The web controller (controller/WebGui.cxx): run numbers, commands, waiting, expired keys and the
-- summary of the states.
pub mod RunNumber
pub mod Wait
pub mod Publish
pub mod Expired
pub mod Summary
