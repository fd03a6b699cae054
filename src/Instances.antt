-- ===== src/Instances.antt =====
-- The platform that the examples run on: tables in memory, a Redis and a BullMQ that never fail.
pub mod Tables
pub mod Keys
pub mod Deployment
