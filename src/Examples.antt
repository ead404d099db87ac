-- ===== src/Examples.antt =====
-- Small concrete flows, hosts and routers, and the theorems at them.
mod Data
mod Runs
mod Stages
mod Lives
mod Graphs
mod Changes
mod Subtasks
mod Settings
mod Memories
mod Audits
