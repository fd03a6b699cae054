-- ===== src/Platform.antt =====
-- What the services use and this repository does not implement, each as a record of operations and
-- of the laws that its documentation states: TypeORM over Postgres, Redis behind ioredis, and
-- BullMQ. Proofs take such a record as a parameter.
pub mod Orm
pub mod Redis
pub mod Bull
pub mod Counters
pub mod Js
pub mod Rows
