-- ===== src/Svipc.antt =====
-- lsvipc.c: System V shared memory, semaphores and message queues.
pub mod Shm
pub mod Msg
pub mod Sem
pub mod Stat
