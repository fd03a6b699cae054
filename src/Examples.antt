-- ===== src/Examples.antt =====
-- A deployment with two users and a component, and the theorems at work on it.
pub mod Start
pub mod Counters
pub mod Delivery
pub mod Staff
pub mod Access
pub mod Shop
pub mod Reading
pub mod SignIn
pub mod Promotion
