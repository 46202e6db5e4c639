-- ===== src/TunnelForm.antt =====
-- The form that creates or edits a tunnel,
-- web/src/components/tunnels/simple-create-tunnel-modal.tsx.
pub mod Fields
pub mod Tags
pub mod Check
pub mod Filled
pub mod Passed
pub mod Rules
pub mod Valid
pub mod Sent
pub mod Exclusive
pub mod TagText
pub mod Modal
pub mod Requests
pub mod Fresh
mod Tests
