-- ===== src/Setup.antt =====
-- The wizard of the first start: web/src/pages/setup.tsx and the payloads of
-- web/src/lib/api/setup.ts.
pub mod Form
pub mod Wizard
pub mod Session
pub mod Submit
pub mod Calm
pub mod Tested
pub mod Finish
mod Tests
