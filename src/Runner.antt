-- ===== src/Runner.antt =====
-- The launcher vcrun.py: the output of its child, its helper calls, and the run of a workflow.
pub mod Output
pub mod Helper
pub mod Child
pub mod Launch
pub mod Settled
pub mod Shown
pub mod Contracts
pub mod Args
pub mod Rules
pub mod Accepted
pub mod Conforms
pub mod Domain
pub mod Main
pub mod Bound
pub mod Cancel
pub mod Control
pub mod Ends
