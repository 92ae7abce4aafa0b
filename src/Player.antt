-- ===== src/Player.antt =====
-- The player of the milestone pages (src/visualizations/shared/milestone-player.js).
pub mod Page
pub mod Controls
pub mod Intervals
pub mod Playing
