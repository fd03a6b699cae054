-- ===== src/Moderation.antt =====
-- src/modules/moderation: blocks, mutes and the intake of reports.
pub mod Blocks
pub mod Mutes
pub mod Reports
