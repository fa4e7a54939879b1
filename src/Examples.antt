-- ===== src/Examples.antt =====
-- Concrete runs, which instantiate the theorems.
pub mod Oauth
mod Grants
mod Logs
mod Jobs
mod Sessions
mod Cursors
mod Messages
mod Media
mod History
