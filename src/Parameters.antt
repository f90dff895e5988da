-- ===== src/Parameters.antt =====
-- The parameter plugin (plugins/ParameterConfigPlugin.cxx and ParameterConfigPlugin.h).
pub mod Property
pub mod Reserved
pub mod Read
pub mod Change
