-- ===== src/Mutex.antt =====
-- extend_mutex.h, the locks that the file implements itself. The wrappers of POSIX locks are the
-- system's.
pub mod Shared
pub mod Spin
mod Tests
pub mod Ticket
pub mod Intention
