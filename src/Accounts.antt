-- ===== src/Accounts.antt =====
-- src/modules/users: what users do with their accounts.
pub mod Privacy
pub mod Consent
pub mod Provision
