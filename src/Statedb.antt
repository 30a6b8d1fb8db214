-- ===== src/Statedb.antt =====
-- src/csync_statedb.c: the journal, a table of the files as they were after the last
-- synchronisation.
--
-- `db` is `ctx->statedb.db`. The loop over the rows of a result ends when the database says so and
-- runs on fuel: `none` is a call that did not come back, or a read past the end of a row. Memory is
-- always there, but for the texts of `sqlite3_mprintf`.
pub mod Rows
pub mod Failures
pub mod Detection
pub mod RoundTrip
pub mod Lookup
pub mod Write
pub mod Rowset
pub mod Metadata
pub mod Files
pub mod Query
