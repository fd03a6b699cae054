-- ===== src/Lib.antt =====
-- The backend of Componi, a NestJS service where users publish UI components, like, comment and
-- follow, and where moderators act on reports. The services keep their state in Postgres (through
-- TypeORM), in Redis (cache and sessions) and in BullMQ (jobs), and announce changes over Socket.IO.
-- This library models the services' methods as functions on that state and proves what they keep.
--
-- How the code becomes definitions. An async method is an action of `Exec`: from the state of the
-- world it gives a result or an exception, and the state afterwards, for a change made before an
-- exception stays. `Exec` has the transactions of Postgres with it: a statement that fails aborts its
-- transaction, and only a transaction that returns without a failed statement is kept. TypeORM, Redis
-- and BullMQ are records of operations with the laws that the code relies on (`Platform`), and every
-- theorem holds for all of them; `Instances` has one of each, so the laws can be met. Tokens, JSON and
-- the string functions of JavaScript are parameters. Ids are numbers, dates milliseconds, counters
-- integers that may fall below zero, and template strings constructors.
--
-- Files (paths of the repository in brackets):
-- - Prelude: Boolean tests, counting of rows, integers.
-- - Entities, Database: the tables [src/database/entities].
-- - Platform: the interfaces of TypeORM, Redis and BullMQ, and the arithmetic of counter columns.
-- - Messages: events, jobs and cache names. Exec: actions, exceptions and transactions.
-- - Realtime.Service, Realtime.Gateway [src/common/realtime].
-- - Cache [src/common/cache/cache.service.ts], Session [src/common/session], Audit [src/common/audit],
--   Guards [src/common/guards].
-- - Notifications [src/modules/notifications], Comments [src/modules/comments], Versions
--   [src/modules/versions], Social [src/modules/social].
-- - Components [src/modules/components]: Slugs, Tagging, Create, Owner (drafts, publishing, changes) and
--   View; Catalog has the proofs on slugs and componentsCount. Collections [src/modules/collections],
--   Embeddings [src/common/embeddings], Thumbnails [src/modules/thumbnails].
-- - Accounts.Privacy, Accounts.Consent [src/modules/users], Accounts.Provision [src/modules/auth]; Feed
--   [src/modules/feed]; Search [src/modules/search].
-- - Moderation.Blocks, .Mutes, .Reports [src/modules/moderation]; Admin.Users, .Content, .Reports
--   [src/modules/admin].
-- - Scripts.Promote [src/scripts/admin-promote.ts]: the arguments of the script.
-- - Instances, Examples: a platform in memory, and the theorems applied on it.
--
-- Requests run one after another; races between them are not modelled, and neither are foreign keys,
-- the `updatedAt` columns, the trigger on privileged columns, most lists and paging, and the other
-- modules (uploads, housekeeping, throttling, profiles, tags). The orders of SQL and of pgvector are
-- parameters. The loops over slugs and usernames have the five attempts of the code as their bound;
-- every other loop is structural.
pub mod Prelude
pub mod Entities
pub mod Database
pub mod Platform
pub mod Messages
pub mod Exec
pub mod Realtime
pub mod Notifications
pub mod Cache
pub mod Moderation
pub mod Audit
pub mod Session
pub mod Guards
pub mod Admin
pub mod Comments
pub mod Versions
pub mod Instances
pub mod Examples
pub mod Embeddings
pub mod Components
pub mod Collections
pub mod Accounts
pub mod Scripts
pub mod Search
pub mod Feed
pub mod Thumbnails
pub mod Social
