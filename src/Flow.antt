-- ===== src/Flow.antt =====
-- src/wastech_orchestrator/core/flow: the flow graph, its checkpoint, its budgets and its engine.
pub mod Contracts
pub mod Schema
pub mod Snapshot
pub mod Reach
pub mod Exhausted
pub mod RunState
pub mod LoopControl
pub mod Host
pub mod Routing
pub mod Violations
pub mod Validator
pub mod Phases
pub mod Disabled
pub mod Execution
pub mod Charging
pub mod Engine
