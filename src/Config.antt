-- ===== src/Config.antt =====
-- The configuration read from the environment (src/config/configuration.ts).
pub mod Parse
pub mod Settings
pub mod Numerals
pub mod Strategy
