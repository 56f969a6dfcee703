-- ===== src/RunStore.antt =====
-- internal/runstore: the views of a run file that the tools show.
pub mod Preview
pub mod Events
pub mod Files
