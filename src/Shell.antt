-- ===== src/Shell.antt =====
-- oscdsh, the shell, component by component.
pub mod Alias
pub mod Jobs
pub mod Logic
pub mod History
pub mod Command
pub mod Plan
pub mod Expand
pub mod Session
pub mod Startup
pub mod Builtins
pub mod Monitor
pub mod Completion
pub mod Prompt
mod Tests
