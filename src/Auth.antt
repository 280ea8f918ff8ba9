-- ===== src/Auth.antt =====
-- src/collectmind/auth: the verifier of tokens, and the principals that the routes ask for.
pub mod Verifier
pub mod Principals
mod Examples
