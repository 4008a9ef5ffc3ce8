-- ===== src/Syscall.antt =====
-- src/sys_mem.c, and `sc_regs` of include/syscall.h: the system call that works on memory.
pub mod Memmap
use simple_32bit_os.Base.{ℕ, ◌%◌, ◌^◌, Option, none, some, ◌==◌, if◌then◌else◌, ◌>>=◌, sext_byte}
use simple_32bit_os.Memphy.{read, write}
use simple_32bit_os.Memory.{Caller}
use simple_32bit_os.Vm.{inc_vma_limit, mm_swap_page}

-- `struct sc_regs`, as far as it is used.
pub record Regs : Type 0 where
  pub a1 : ℕ
  pub a2 : ℕ
  pub a3 : ℕ

-- What a system call returns, and the registers and the caller afterwards.
pub record Called : Type 0 where
  pub result : ℕ
  pub regs : Regs
  pub caller : Caller

abbrev pub inc_op : ℕ
inc_op = 2

abbrev pub swp_op : ℕ
swp_op = 3

abbrev pub io_read : ℕ
io_read = 4

abbrev pub io_write : ℕ
io_write = 5

-- SYSMEM_IO_READ. A byte that was not read is a variable that nobody set.
read_byte : Caller → Regs → Option Called
read_byte caller regs = do
  r ← read caller.mram regs.a2
  value ← r.value
  some (record {
    result = 0;
    regs = record regs { a3 = sext_byte value };
    caller = record caller { mram = r.memphy };
  })

-- SYSMEM_IO_WRITE, which passes `a3` as a BYTE.
write_byte : Caller → Regs → Option Called
write_byte caller regs = do
  w ← write caller.mram regs.a2 (regs.a3 % 2 ^ 8)
  some (record { result = 0; regs = regs; caller = record caller { mram = w.memphy } })

-- `__sys_memmap`. The results of what it calls are ignored.
pub sys_memmap : Caller → Regs → Option Called
unfolding read_byte write_byte
sys_memmap caller regs =
    let nothing = some (record { result = 0; regs = regs; caller = caller }) in
    let inc = (do
      r ← inc_vma_limit caller regs.a2 regs.a3
      some (record { result = 0; regs = regs; caller = r.caller })) in
    let swp = (do
      r ← mm_swap_page caller regs.a2 regs.a3
      some (record { result = 0; regs = regs; caller = r.caller })) in
    if regs.a1 == inc_op
    then inc
    else if regs.a1 == swp_op
    then swp
    else if regs.a1 == io_read
    then read_byte caller regs
    else if regs.a1 == io_write
    then write_byte caller regs
    else nothing
