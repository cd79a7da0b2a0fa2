-- ===== src/Kernel.antt =====
-- The kernel's data and the monad of its functions.
pub mod Config
pub mod Types
pub mod Bytes
pub mod Cmd
pub mod Access
