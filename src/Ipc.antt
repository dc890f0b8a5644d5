-- ===== src/Ipc.antt =====
-- lipclib.c: POSIX shared memory, semaphores and message queues.
pub mod Deadline
pub mod Shm
pub mod Sem
pub mod Mq
