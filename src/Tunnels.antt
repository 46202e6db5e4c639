-- ===== src/Tunnels.antt =====
-- The list of tunnels: the state and the actions of web/src/pages/tunnels/index.tsx.
pub mod Rows
pub mod Actions
pub mod Marks
pub mod Chosen
mod Tests
