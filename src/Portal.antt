-- ===== src/Portal.antt =====
-- Portal and Vector URLs: web/src/lib/portal-url.ts.
pub mod Uri
pub mod Platform
pub mod Endpoint
pub mod Parse
pub mod Credentials
pub mod Query
pub mod Tunnel
pub mod Service
pub mod Build
pub mod Vector
pub mod Path
mod Tests
