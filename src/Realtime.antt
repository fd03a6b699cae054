-- ===== src/Realtime.antt =====
-- The realtime events (common/realtime). `Service` is what the other services call, `Gateway` the
-- Socket.IO entrypoint.
pub mod Service
pub mod Gateway
