-- ===== src/Routing.antt =====
-- packages/frontend/src/routing: the hashes of the app's pages.
pub mod Router
pub mod AppRoutes
pub mod Splitting
pub mod RoundTrip
mod Tests
