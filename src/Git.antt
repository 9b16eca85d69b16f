-- ===== src/Git.antt =====
-- src/git: Git objects, and what a commit is built of.
pub mod Tree
pub mod Objects
pub mod Protocol
pub mod Builder
pub mod CommitMessage
pub mod Delta
pub mod Pack
pub mod PackWriter
pub mod Idx
pub mod Storage
pub mod Refs
pub mod Publish
