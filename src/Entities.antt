-- ===== src/Entities.antt =====
-- The TypeORM entities (src/database/entities): one record for each table, with its columns.
-- Relations (`author`, `component`, ...) are not columns and have no field. A UUID is read as the
-- 128-bit number that it is, and the code only compares UUIDs; a Date is its milliseconds.
pub mod Accounts
pub mod Content
pub mod Moderation
