-- ===== src/Svipc/Sem/Tests.antt =====
-- Runs and instances of the semaphore model of lsvipc.c.
use lua_xlib.Constants.{einval, ipc_nowait}
use lua_xlib.Svipc.Sem.Pending.{pending, IsValid}
use lua_xlib.Base.Int.{negsuc, pos, ℤ}
use lua_xlib.Lua.{
  Bytes, done, values, boolean, report_error, table, field, lret_negative, integer, end,
}
use lua_xlib.Svipc.Sem.{
  Sem, SemCalls, lsem_addop, lsem_done, lsem_getall, SemBuf, negsuc, pos, ℤ, einval,
}
use lua_xlib.Svipc.Sem.Transaction.{add_all, add_all-done}
use lua_xlib.Base.{ℕ, List, arith, true, ◌∷◌, ◌≡◌, [], some, replicate, refl}

abbrev strerror : ℕ → Bytes
strerror e = e ∷ []

-- A system that remembers the last operations that it was handed.
abbrev calls : SemCalls (List SemBuf)
calls = record {
  semget = λ key n flags w. (done 3, w);
  sem_nsems = λ id w. (done 2, w);
  sem_remove = λ id w. (done tt, w);
  semop = λ id ops w. (done tt, ops);
  semctl_get = λ cmd id n w. (done n, w);
  semctl_getall = λ id w. (done (7 ∷ 8 ∷ []), w);
  semctl_setall = λ id vals w. (done tt, w);
  semctl_setval = λ id n z w. (done tt, w);
}

-- Two semaphores, with nothing waiting.
abbrev two : Sem (List SemBuf)
two = record {
  obj = record {
    semid = 3;
    nsems = 2;
    nops = 0;
    vals = 0 ∷ 0 ∷ [];
    sops = replicate 6 (record { sem_num = 0; sem_op = pos 0; sem_flg = 0 });
  };
  system = [];
}

two-IsValid : IsValid two
two-IsValid = omega arith

abbrev ops : List (ℤ × ℤ)
ops = (pos 0, pos 1) ∷ (negsuc 0, pos 2) ∷ []

submits_in_order :
    (lsem_done strerror calls true (add_all strerror ops two)).1.system
    ≡ record { sem_num = 0; sem_op = pos 0; sem_flg = ipc_nowait }
      ∷ record { sem_num = 1; sem_op = negsuc 0; sem_flg = 0x1800 }
      ∷ []
unfolding add_all lsem_addop lsem_done
submits_in_order = refl

getall_table :
    (lsem_getall strerror calls two).0
    ≡ values (
        table (
          field (integer (pos 1)) (integer (pos 7)) (field (integer (pos 2)) (integer (pos 8)) end))
        ∷ [])
unfolding lsem_getall
getall_table = refl

unknown_semaphore :
    lsem_addop strerror (pos 1) (some (pos 3)) two
    ≡ (report_error strerror lret_negative einval, two)
unfolding lsem_addop
unknown_semaphore = refl

add_all-done_example :
    let (r, s') = lsem_done strerror calls true (add_all strerror ops two) in
    (r ≡ values (boolean true ∷ []))
    × (s'.system
        ≡ record { sem_num = 0; sem_op = pos 0; sem_flg = 0x800 }
          ∷ record { sem_num = 1; sem_op = negsuc 0; sem_flg = 0x1800 }
          ∷ [])
    × (pending s' ≡ [])
add_all-done_example =
    add_all-done strerror calls true ops two two-IsValid refl (refl, (refl, tt)) (omega arith)
