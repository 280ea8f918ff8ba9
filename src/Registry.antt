-- ===== src/Registry.antt =====
-- src/collectmind/registry: the repositories over Postgres.
pub mod Audit
pub mod Policies
pub mod Deployments
pub mod Outcomes
pub mod Integrity
pub mod Migrations
pub mod TenantConfig
mod Examples
