-- ===== src/Korokd.antt =====
-- The daemon inside a sandbox (pkg/korokd).
pub mod ExitCode
pub mod Workspace
pub mod Auth
pub mod Contexts
pub mod Kernels
pub mod Shell
pub mod Files
pub mod Tree
mod Tests
