-- ===== src/Route.antt =====
-- The route that books seats (src/bookings/bookings.controller.ts): its guard, its interceptor and
-- its handler over one server.
pub mod Pipeline
pub mod Claiming
pub mod Outcome
pub mod Keeping
pub mod Retry
pub mod Effects
