-- ===== src/Posix.antt =====
-- main/src/adapter/posix: the adapters that run on a PC, over pthreads and gettimeofday.
pub mod Time
pub mod Queue
pub mod Semaphore
pub mod Task
pub mod Board
