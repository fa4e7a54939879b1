-- ===== src/Oauth.antt =====
-- internal/oauth: the authorization server.
pub mod Server
pub mod Clients
pub mod Token
pub mod Revoke
pub mod Consent
