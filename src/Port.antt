-- ===== src/Port.antt =====
-- internal/core/port: what the core services need from outside and what they are asked for.
--
-- A driven adapter (a repository, Temporal, the session's tenant setting) is a parameter: a record of
-- functions that answer a call, given everything that was called before. So an answer may depend on
-- all earlier calls, and a theorem about every such record holds for every adapter, failing or not.
-- The history is the newest call first, and it keeps of each write whether it succeeded.
pub mod Inputs
pub mod Call
pub mod Action
pub mod Trace
pub mod After
