-- ===== src/Dispatch.antt =====
-- src/syscall.c, src/syscall.tbl, src/libstd.c and src/sys_listsyscall.c: how a system call finds its
-- function. The cases of `syscall` are the lines of syscall.tbl.
pub mod Calls
use simple_32bit_os.Base.{ℕ, Option, none, some, ◌==◌, if◌then◌else◌, ◌>>=◌}
use simple_32bit_os.Queue.{Ptr}
use simple_32bit_os.Syscall.{Regs, Called, sys_memmap}
use simple_32bit_os.System.{System, caller_of, with_caller}
use simple_32bit_os.Killall.{sys_killall}

-- The numbers of syscall.tbl.
abbrev pub nr_listsyscall : ℕ
nr_listsyscall = 0

abbrev pub nr_memmap : ℕ
nr_memmap = 17

abbrev pub nr_killall : ℕ
nr_killall = 101

-- What a system call returns, and the system afterwards. The registers are a local variable of
-- `libsyscall`, so what `__sys_memmap` stores in them is lost.
pub record Result : Type 0 where
  pub result : ℕ
  pub system : System

-- `__sys_listsyscall`, which only prints, and `__sys_ni_syscall`
pub sys_listsyscall : System → Option Result
sys_listsyscall s = some (record { result = 0; system = s })

pub sys_ni_syscall : System → Option Result
sys_ni_syscall s = some (record { result = 0; system = s })

-- `__sys_memmap`, whose caller is a process of the system.
pub memmap : System → (caller : Ptr) → Regs → Option Result
memmap s caller regs = do
  c ← caller_of s caller
  r ← sys_memmap c regs
  some (record { result = r.result; system = with_caller s caller r.caller })

pub killall : System → (caller : Ptr) → Regs → Option Result
killall s caller regs = do
  k ← sys_killall s caller regs
  some (record { result = k.killed_count; system = k.system })

pub syscall : System → (caller : Ptr) → (nr : ℕ) → Regs → Option Result
unfolding sys_listsyscall sys_ni_syscall memmap killall
syscall s caller nr regs =
    if nr == nr_listsyscall
    then sys_listsyscall s
    else if nr == nr_memmap
    then memmap s caller regs
    else if nr == nr_killall
    then killall s caller regs
    else sys_ni_syscall s

pub libsyscall : System → (caller : Ptr) → (syscall_idx a1 a2 a3 : ℕ) → Option Result
unfolding syscall
libsyscall s caller syscall_idx a1 a2 a3 =
    syscall s caller syscall_idx (record { a1 = a1; a2 = a2; a3 = a3 })
