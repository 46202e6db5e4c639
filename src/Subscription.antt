-- ===== src/Subscription.antt =====
-- Subscriptions: the editor of a subscription's nodes.
pub mod Uris
pub mod Form
pub mod Import
pub mod Edit
pub mod Rename
pub mod Save
pub mod Lines
pub mod Names
pub mod Distinct
pub mod Unique
pub mod Accepted
pub mod Nodes
pub mod Order
pub mod Kept
pub mod Runs
pub mod Submit
mod Tests
