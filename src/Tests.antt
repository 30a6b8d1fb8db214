-- ===== src/Tests.antt =====
-- Runs of the definitions on small inputs, and the theorems applied to them.
mod TreeRuns
mod ListRuns
mod PathRuns
mod SessionRuns
mod Disk
mod PushRuns
mod PropagateRuns
mod MergeRuns
mod WalkRuns
mod Database
mod StatedbRuns
mod FileRuns
mod CompareRuns
