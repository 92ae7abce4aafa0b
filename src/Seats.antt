-- ===== src/Seats.antt =====
-- Concurrent bookings of one event (src/bookings/bookings.service.ts): the statements of many
-- transactions, interleaved in any order.
pub mod Store
pub mod System
pub mod Invariant
pub mod Moves
pub mod Safety
pub mod Oversell
