-- ===== src/Sys/Process/Tests.antt =====
-- `sys.execlp` on a system that starts every program and leaves its arguments behind.
use lua_xlib.Base.Int.{pos}
use lua_xlib.Sys.Process.Arguments.{argv, lsys_execlp_lem}
use lua_xlib.Lua.{Bytes, done, text, failed}
use lua_xlib.Sys.Process.{ProcessCalls, Slot, lsys_execlp, status, pos}
use lua_xlib.Base.{ℕ, Option, List, ◌∷◌, [], none, ◌≡◌, some, arith}

abbrev strerror : ℕ → Bytes
strerror e = e ∷ []

abbrev calls : ProcessCalls (Option (List Bytes))
calls = record {
  getsid = λ pid w. (done 1, w);
  getpgid = λ pid w. (done 1, w);
  setsid = λ w. (done tt, w);
  setpgid = λ pid pgid w. (done tt, w);
  setpgrp = λ w. (done tt, w);
  getenv = λ name w. none;
  setenv = λ name value overwrite w. (done tt, w);
  unsetenv = λ name w. (done tt, w);
  sysconf = λ name w. (done none, w);
  getrlimit = λ resource w. (failed 22, w);
  setrlimit = λ resource r w. (done tt, w);
  basename = λ file. (file, file);
  execvp = λ file arg w. (done tt, argv arg);
  daemon = λ nochdir noclose w. (done tt, w);
  kill = λ pid signo w. (done tt, w);
  fork = λ w. (done 7, w);
  wait = λ w. (done (7, pos 0), w);
  waitpid = λ pid options w. (done (7, pos 0), w);
}

lsys_execlp_lem_example :
    (arg : List Slot) × (lsys_execlp strerror calls (text "ls") (text "-l" ∷ []) none
      ≡ status strerror calls (done tt, argv arg))
    × (argv arg ≡ some (text "ls" ∷ text "-l" ∷ []))
lsys_execlp_lem_example =
    lsys_execlp_lem strerror calls (text "ls") (text "-l" ∷ []) none (omega arith)
