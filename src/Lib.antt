-- ===== src/Lib.antt =====
-- A model of the C modules of lua_xlib, which give Lua programs the System V and POSIX interprocess
-- communication, sockets, files, users, processes and signals of the system, big integers, and
-- RabbitMQ.
--
-- The program. Each C file is one Lua module: a table of functions, and for some of them userdata with
-- methods. A function checks its arguments (`luaL_check...`, which raise a Lua error), calls the system,
-- and returns values, or a failure value with a message and an error code (`report_errmsg` of
-- lua_util.h). The modules do not call each other; they share lua_util.h, and what their objects refer
-- to: a segment, a queue, a descriptor, Lua's registry.
--
-- The files.
--   Base, Constants    lists, integers with their wrap-around, errno and flags as on Linux, x86-64
--   Lua                lua_util.h: the values a function pushes, and how a call ends
--   Memory             memcpy and lua_pushlstring on a block of bytes, which may overrun it
--   Svipc.Shm          lsvipc.c: shmget, and shm: attach, detach, read, write, seek, tell, size, remove
--   Svipc.Sem          lsvipc.c: semget, and sem: add_op, done, setall, getall, setval, remove and the
--                      other calls of semctl
--   Svipc.Stat         lsvipc.c: ftok, and stat and info of the three kinds of objects
--   Svipc.Msg          lsvipc.c: msgget, and msg: send, receive, remove and the finalizer
--   Fd                 lfdlib.c: close, lseek, truncate, read, write, pread, pwrite, sendfile
--   Fd.Select          lfdlib.c: readable and writable, which are lfd_select
--   Fd.Control         lfdlib.c: open, creat, pipe, dup, dup2, fcntl, flock, lockf, chmod, chown, sync,
--                      pathconf
--   Fs, Fs.Directory   lfslib.c: the functions on paths; listdir with its iterator, and fnmatch
--   Ipc.Shm            lipclib.c: shm_open, shm_unlink, mmap, and shm: read, write, seek, tell, size,
--                      close
--   Ipc.Deadline       lipclib.c: expire_time
--   Ipc.Sem            lipclib.c: sem_open, sem_unlink, and sem: close, getvalue, post, wait, trywait
--   Ipc.Mq             lipclib.c: mq_open, mq_unlink, and mq: close, setblocking, receive, send
--   Socket.Poller      lsocklib.c: PollSelector, without epoll, and poller: register, modify,
--                      unregister, clear, select and its iterator
--   Socket.Deadline    lsocklib.c: time_add and time_left
--   Socket.Object      lsocklib.c: sockobj, and the check that a method begins with
--   Socket.Readline    lsocklib.c: sockobj:readline
--   Socket.Io          lsocklib.c: sockobj: recv, send, close, closed, fileno, listen, shutdown,
--                      isblocking, setblocking
--   Socket.Address     lsocklib.c: sock_addr_t, gen_sockaddr, lsock_pushaddr, socket.address, ntohl and
--                      its like
--   Socket.Names       lsocklib.c: socket.socket, socketpair, and sockobj: info, accept, bind, connect,
--                      getpeername, getsockname
--   Socket.Datagrams, Socket.Messages    lsocklib.c: sockobj: poll, recvfrom, sendto, sendmsg, recvmsg
--   Socket.Options     lsocklib.c: sockopts, get_sockopt, and sockobj: getsockopt, setsockopt
--   Socket.Hosts       lsocklib.c: socket.gethostname and the other questions to name services
--   Bigint             lbnlib.c: nb_check_arg, bn_op, bn_op_assign, bn_op_cmp; Bigint.Methods has the
--                      functions that Lua calls
--   User               luserlib.c: the databases of users, groups and passwords; User.Identity has the
--                      rest
--   Amqp.Lua           the Lua values that lamqplib.c goes through, tables included
--   Amqp.Field         lamqplib.c: encode_field, decode_field and what they call
--   Amqp.Frame         what goes to a broker and comes from it
--   Amqp.Connection    lamqplib.c: connection_t, channel_t, check_rpc_reply, check_status and the messages
--                      of failures; Connection.Setup has establish_connection, connect, close
--   Amqp.Channel       lamqplib.c: connection:channel, channel: close, good, ident, and the macros around
--                      every request
--   Amqp.Options, Amqp.Properties    lamqplib.c: tables of options and the properties of a message
--   Amqp.Methods       lamqplib.c: the other methods of a channel
--   Amqp.Events        lamqplib.c: connection:drain_events
--   Amqp.Connect       lamqplib.c: amqp.connect
--   Amqp.Agreement     the channels of a connection against those that the broker has open
--   Sys.Signal         lsyslib.c: sys.signal, sig_handler_init, sig_handler_wrap and sig_handler
--   Sys.Iconv          lsyslib.c: sys.iconv
--   Sys.Process        lsyslib.c: getsid, getpgid, setsid, setpgid, setpgrp, getenv, setenv, unsetenv,
--                      sysconf, getrlimit, setrlimit, execlp, daemon, kill, fork, wait, waitpid
--   Sys.Calls          lsyslib.c: the functions that hand one call of the system to Lua
-- A C function keeps its name, with the prefix that DEF_METHOD adds where that is used. A struct is a
-- record with the struct's fields; the field `pos` of a cursor is `offset` here.
--
-- State. A method takes the userdata, the bytes it shares with the system where there are any, and the
-- rest of the system, of a type `W` that is a parameter, and gives them back with its reply. The
-- system's calls are the fields of a record (ShmCalls, SockCalls and so on) over `W`, so that nothing
-- is known of them but what a theorem's hypotheses state. A call that fails answers `failed` with its
-- errno. A read or write that leaves its block, and a push
-- on the stack of Lua beyond LUA_MINSTACK, ends in the reply `overrun`; an assertion that fails in
-- `aborted`.
--
-- Integers. A `size_t`, an `int` and an `unsigned short` wrap around as in C (Base.Words); lua_Integer
-- has 64 bits. A timeout that is a double is given by the integer that the code makes of it.
--
-- Fuel. The loops of sockobj:readline, drain_event, sys.iconv and lua_lsnext have no bound of their own:
-- they run on fuel, one unit for each round. The other loops are recursion on what they go through.
--
-- Not modelled: epoll; WIFEXITED and its like in lsyslib.c and the tests of file modes in lfslib.c, which
-- are macros of the system; the finalizer of semaphores; lerrno.c, a table of constants; lzlog.c,
-- lua_py.c, rapidxml.cpp and the otldb files, which are glue over libraries; fd.stat and the getattr
-- of a queue, which copy a structure of the system into a Lua table; the Lua files under libs/.
-- The mask that sig_handler sets while a function runs is left out, as is a failing malloc. Of
-- lamqplib.c the memory pools are left out, and tables whose keys are not strings or 1, 2, ...; what is
-- encoded as an AMQP table has no items.
pub mod Base
pub mod Constants
pub mod Lua
pub mod Memory
pub mod Amqp
pub mod Bigint
pub mod Fd
pub mod Fs
pub mod Ipc
pub mod Socket
pub mod Svipc
pub mod Sys
pub mod User
