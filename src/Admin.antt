-- ===== src/Admin.antt =====
-- src/modules/admin: what moderators and admins do to users, reports and content.
pub mod Users
pub mod Content
pub mod Reports
