-- ===== src/Scripts.antt =====
-- src/scripts: programs that an operator runs.
pub mod Promote
