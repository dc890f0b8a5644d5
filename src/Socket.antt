-- ===== src/Socket.antt =====
-- lsocklib.c: the poll selector and the socket methods.
pub mod Io
pub mod Poller
pub mod Deadline
pub mod Address
pub mod Names
pub mod Datagrams
pub mod Options
pub mod Object
pub mod Readline
pub mod Hosts
pub mod Messages
