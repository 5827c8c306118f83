-- ===== src/Repo.antt =====
-- packages/repo/src: guarded access to the files of a workspace, and change sets.
pub mod Host
pub mod Files
pub mod ChangeSet
pub mod Examples
