-- ===== src/Service.antt =====
-- How an instance registers itself, and leaves again (plugins/DaqServicePlugin.cxx).
pub mod Instance
pub mod Unregister
pub mod Register
