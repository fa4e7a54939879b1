-- ===== src/Access.antt =====
-- internal/access: scopes, bearer tokens and the grants of gateway clients.
pub mod Scopes
pub mod Token
pub mod Grants
pub mod Issue
