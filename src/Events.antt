-- ===== src/Events.antt =====
-- Events (src/events/).
pub mod Store
pub mod Service
pub mod Pages
pub mod Reading
