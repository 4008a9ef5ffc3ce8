-- ===== src/Cpu.antt =====
-- src/cpu.c: `run`, which executes one instruction of a process, as built with MM_PAGING. `none` is
-- undefined behaviour, also of what an instruction calls.
pub mod Programs
pub mod Step
mod Tests
use simple_32bit_os.Base.{
  ℕ, suc, ◌+◌, ◌%◌, ◌^◌, Option, none, some, leb, u32, if◌then◌else◌, length, get_elem?, ◌>>=◌,
}
use simple_32bit_os.Memory.{Region, Caller}
use simple_32bit_os.Libmem.Alloc.{liballoc, libfree}
use simple_32bit_os.Libmem.Paging.{libread, libwrite}
use simple_32bit_os.Queue.{Ptr}
use simple_32bit_os.Process.{Pcb, Inst, Opcode}
use simple_32bit_os.System.{System, deref, set_pcb, caller_of, with_caller}
use simple_32bit_os.Dispatch.{Result, libsyscall}

-- `calc`: the address of the block and 0.
pub calc : Ptr → ℕ
calc proc = 0

-- What a call of the memory library returned, for process `proc` of `s`.
pub returned : System → (proc : Ptr) → (result : ℕ) → Caller → Option Result
returned s proc result c = some (record { result = result; system = with_caller s proc c })

-- The `switch`. READ stores its byte in `arg_2` of `ins`, a local copy of the instruction; `junk` is
-- a local variable of `__alloc`.
pub execute : (junk : Region) → System → (proc : Ptr) → Inst → Opcode → Option Result
unfolding calc returned
execute junk s proc ins Opcode.calc = some (record { result = calc proc; system = s })
execute junk s proc ins Opcode.alloc = do
  c ← caller_of s proc
  r ← liballoc c ins.arg_0 ins.arg_1 junk
  returned s proc r.result r.caller
execute junk s proc ins Opcode.free = do
  c ← caller_of s proc
  r ← libfree c ins.arg_0
  returned s proc r.result r.caller
execute junk s proc ins Opcode.read = do
  c ← caller_of s proc
  d ← libread c ins.arg_0 ins.arg_1
  arg_2 ← d.destination
  returned s proc d.result d.proc
execute junk s proc ins Opcode.write = do
  c ← caller_of s proc
  r ← libwrite c (ins.arg_0 % 2 ^ 8) ins.arg_1 ins.arg_2
  returned s proc r.result r.caller
execute junk s proc ins Opcode.syscall = libsyscall s proc ins.arg_0 ins.arg_1 ins.arg_2 ins.arg_3

-- `proc->pc++`
pub advance_pc : System → (proc : Ptr) → Pcb → System
advance_pc s proc c = set_pcb s proc (record c { pc = u32 (c.pc + 1) })

pub run : (junk : Region) → System → (proc : Ptr) → Option Result
unfolding execute advance_pc
run junk s proc = do
  c ← deref s proc
  let rest = (do
    ins ← get_elem? c.text c.pc
    execute junk (advance_pc s proc c) proc ins ins.opcode)
  if leb (length c.text) c.pc then some (record { result = 1; system = s }) else rest
