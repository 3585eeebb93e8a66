-- ===== src/Threads.antt =====
-- The threads' primitives of the C back-end over POSIX threads:
-- sources/lib/run-time/posix-threads.c.
pub mod Variables
pub mod Writers
pub mod Mutex
pub mod Locks
pub mod Join
pub mod Semaphores
