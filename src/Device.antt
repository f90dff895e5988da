-- ===== src/Device.antt =====
-- The FairMQ device as the plugin sees it (plugins/DaqServicePlugin.cxx). The device itself is not
-- part of the repository: its states and transitions are those that the source names, and its
-- behaviour is a parameter.
pub mod Constants
pub mod Engine
pub mod Single
pub mod Abstract
pub mod Multi
pub mod Sequences
pub mod Message
