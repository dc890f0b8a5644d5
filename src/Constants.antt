-- ===== src/Constants.antt =====
-- The numbers behind the macros of the C library that the sources compare with or pass on, as Linux
-- defines them on x86-64.
use lua_xlib.Base.{ℕ}

-- errno.h
abbrev pub eintr : ℕ
eintr = 4

abbrev pub ebadf : ℕ
ebadf = 9

abbrev pub eagain : ℕ
eagain = 11

abbrev pub eacces : ℕ
eacces = 13

abbrev pub efault : ℕ
efault = 14

abbrev pub eexist : ℕ
eexist = 17

abbrev pub einval : ℕ
einval = 22

abbrev pub e2big : ℕ
e2big = 7

abbrev pub erange : ℕ
erange = 34

abbrev pub enomsg : ℕ
enomsg = 42

abbrev pub etimedout : ℕ
etimedout = 110

-- sys/ipc.h and sys/sem.h
abbrev pub ipc_creat : ℕ
ipc_creat = 0o1000

abbrev pub ipc_nowait : ℕ
ipc_nowait = 0o4000

abbrev pub sem_undo : ℕ
sem_undo = 0x1000

-- signal.h
abbrev pub sigkill : ℕ
sigkill = 9

abbrev pub sigstop : ℕ
sigstop = 19

-- fcntl.h
abbrev pub o_rdwr : ℕ
o_rdwr = 2

abbrev pub o_creat : ℕ
o_creat = 0o100

abbrev pub o_nonblock : ℕ
o_nonblock = 0o4000

-- sys/mman.h
abbrev pub prot_read : ℕ
prot_read = 1

abbrev pub prot_write : ℕ
prot_write = 2

abbrev pub map_shared : ℕ
map_shared = 1
