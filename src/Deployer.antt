-- ===== src/Deployer.antt =====
-- src/collectmind/deployer and src/collectmind/cache: who owns a vehicle, and the check before a
-- deployment.
pub mod Ownership
pub mod Scope
mod Examples
