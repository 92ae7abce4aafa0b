-- ===== src/Booking.antt =====
-- Booking seats (src/bookings/bookings.service.ts): one request at a time, each statement of its
-- transaction in order. Interleaved requests are the matter of Seats.
pub mod Types
pub mod Decrement
pub mod Integrity
pub mod Service
pub mod Takes
pub mod Atomicity
pub mod Outcome
pub mod Listing
