-- ===== src/Automation.antt =====
-- The automation server: jobs, machines and their managers (automation/common, automation/server).
pub mod StateMachine
pub mod Machines
pub mod Jobs
pub mod Groups
