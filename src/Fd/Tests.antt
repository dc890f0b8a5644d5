-- ===== src/Fd/Tests.antt =====
-- Runs of the descriptor model of lfdlib.c: a system that counts the bytes that were sent.
use lua_xlib.Fd.Select.Watching.{lfd_select_lem}
use lua_xlib.Fd.Select.{lfd_select, empty_set}
use lua_xlib.Fd.{FdCalls, values, SysRet, integer}
use lua_xlib.Lua.{Bytes, done, values, SysRet, table, field, integer, end}
use lua_xlib.Base.Int.{pos}
use lua_xlib.Base.{ℕ, ◌≡◌, refl, arith, ◌∷◌, [], ◌+◌, length, List, Bool, set, true}

abbrev strerror : ℕ → Bytes
strerror e = e ∷ []

abbrev calls : FdCalls ℕ
calls = record {
  close = λ fd w. (done tt, w);
  lseek = λ fd offset whence w. (done 30, w);
  ftruncate = λ fd n w. (done tt, w);
  read = λ fd n w. (done [], w);
  write = λ fd buf w. (done (length buf), w);
  pread = λ fd n offset w. (done [], w);
  pwrite = λ fd buf offset w. (done (length buf), w);
  fstat_size = λ fd w. (done 100, w);
  sendfile = λ out_fd in_fd offset n w. (done tt, w + n);
}

-- A system where of the descriptors in the set only 5 is ready.
abbrev five_ready : ℕ → List Bool → ℕ → SysRet (ℕ × List Bool) × ℕ
five_ready count fds w = (done (1, set empty_set 5 true), count)

lfd_select_lem_example :
    lfd_select strerror five_ready (pos 3 ∷ pos 5 ∷ []) 0
    ≡ (values (table (field (integer (pos 1)) (integer (pos 5)) end) ∷ []), 6)
lfd_select_lem_example =
    lfd_select_lem strerror five_ready (3 ∷ 5 ∷ []) 0 6 1 (set empty_set 5 true)
      (omega arith, (omega arith, tt)) refl (omega arith) refl
