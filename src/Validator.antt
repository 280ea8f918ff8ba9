-- ===== src/Validator.antt =====
-- src/collectmind/validator: the vocabulary, data governance, and their composition.
pub mod Sorted
pub mod Vss
pub mod Governance
pub mod Policy
mod Examples
