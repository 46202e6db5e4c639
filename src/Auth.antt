-- ===== src/Auth.antt =====
-- Signing in and the pages that ask for it: web/src/components/auth and
-- web/src/components/setup/setup-gate.tsx.
pub mod Provider
pub mod Guard
pub mod Gate
pub mod Access
pub mod Entrance
mod Tests
