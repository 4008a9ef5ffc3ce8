-- ===== src/Dispatch/Calls.antt =====
-- System calls as a process makes them, with the registers that it cannot see.
use simple_32bit_os.Base.{
  ℕ, ◌%◌, ◌^◌, ◌<◌, ◌≡◌, refl, inl, inr, some, false, ◌==◌, ==_iff, Bool-cases, if◌then◌else◌,
  fun_ext, ap, Holds, Holds-bind, Holds-some,
}
use simple_32bit_os.Memphy.Device.{IsRandom, updated}
use simple_32bit_os.Memory.{Mm, Caller}
use simple_32bit_os.Queue.{Ptr}
use simple_32bit_os.Killall.{sys_killall}
use simple_32bit_os.Killall.Programs.{KeepsPrograms, keeps_heap, sys_killall-Keeps}
use simple_32bit_os.Syscall.{Regs, io_read, io_write, sys_memmap}
use simple_32bit_os.Syscall.Memmap.{sys_memmap-to_write, sys_memmap-to_read}
use simple_32bit_os.System.{System, caller_of, with_caller}
use simple_32bit_os.Dispatch.{
  Result, nr_listsyscall, nr_memmap, nr_killall, sys_listsyscall, sys_ni_syscall, memmap, killall,
  syscall, libsyscall,
}

-- The memory of a process that was not freed.
abbrev pub memory_of : System → Ptr → Caller
memory_of s p = record { mm = s.memory p; mram = s.mram; active_mswp = s.active_mswp }

same_memory : (memory : Ptr → Mm) (p x : Ptr) → (if x == p then memory p else memory x) ≡ memory x
same_memory memory p x = elim (Bool-cases (x == p)) [
  | inl e ↦ rw (e, (==_iff x p).0 e) refl
  | inr e ↦ rw e refl
]

-- A call of the memory library that changes nothing.
pub with_caller-same : (s : System) (p : Ptr) → with_caller s p (memory_of s p) ≡ s
unfolding with_caller
with_caller-same s p = ap (λ m. record s { memory = m }) (fun_ext (same_memory s.memory p))

-- The system with a byte of RAM written.
abbrev pub byte_written : System → (addr value : ℕ) → System
byte_written s addr value = record s { mram = updated s.mram addr value }

pub with_caller-mram :
    (s : System) (p : Ptr) (addr value : ℕ)
    → with_caller s p (record (memory_of s p) { mram = updated s.mram addr value })
      ≡ byte_written s addr value
unfolding with_caller
with_caller-mram s p addr value =
    ap (λ m. record s { memory = m; mram = updated s.mram addr value })
      (fun_ext (same_memory s.memory p))

-- When RAM has random access, the process was not freed and both addresses are inside RAM: a process
-- that calls `libsyscall` for `__sys_memmap` with SYSMEM_IO_WRITE gets 0, and the low byte of the
-- value is in RAM at the address; SYSMEM_IO_READ after that gives 0 as well and changes nothing at
-- all, so that no process ever sees the byte.
pub libsyscall-libsyscall :
    (s : System) (p : Ptr) (addr value a junk : ℕ)
    → s.freed p ≡ false
    → IsRandom s.mram
    → addr < s.mram.maxsz
    → a < s.mram.maxsz
    → let after = byte_written s addr (value % 2 ^ 8) in
      (libsyscall s p nr_memmap io_write addr value ≡ some (record { result = 0; system = after }))
      × (libsyscall after p nr_memmap io_read a junk ≡ some (record { result = 0; system = after }))
unfolding libsyscall syscall memmap caller_of
libsyscall-libsyscall s p addr value a junk alive random inside inside' = (
  rw
      (
        alive,
        sys_memmap-to_write (memory_of s p) addr value random inside,
        with_caller-mram s p addr (value % 2 ^ 8),
      )
      refl,
  rw
      (
        alive,
        sys_memmap-to_read (memory_of (byte_written s addr (value % 2 ^ 8)) p) a junk random
            inside',
        with_caller-same (byte_written s addr (value % 2 ^ 8)) p,
      )
      refl,
)

-- A system call changes nothing in the control block of its caller, and of the others only program
-- counters.
pub libsyscall-Keeps :
    (s : System) (p : Ptr) (syscall_idx a1 a2 a3 : ℕ)
    → Holds (λ r. KeepsPrograms p s r.system) (libsyscall s p syscall_idx a1 a2 a3)
unfolding libsyscall syscall sys_listsyscall sys_ni_syscall memmap killall with_caller
libsyscall-Keeps s p nr a1 a2 a3 =
    let Q : Result → Type 0 = λ r. KeepsPrograms p s r.system in
    let regs : Regs = record { a1 = a1; a2 = a2; a3 = a3 } in
    let nothing : KeepsPrograms p s s = keeps_heap p s s refl refl in
    let mem : Holds Q (memmap s p regs) =
      Holds-bind Q (caller_of s p) _ λ c e. Holds-bind Q (sys_memmap c regs) _ λ r e'. nothing in
    let kill : Holds Q (killall s p regs) =
      Holds-bind Q (sys_killall s p regs) _
        λ k e. Holds-some (λ k. KeepsPrograms p s k.system) (sys_killall-Keeps s p regs) e in
    elim (Bool-cases (nr == nr_listsyscall)) [
      | inl e ↦ rw e nothing
      | inr e ↦ elim (Bool-cases (nr == nr_memmap)) [
        | inl e' ↦ rw (e, e') mem
        | inr e' ↦ elim (Bool-cases (nr == nr_killall)) [
          | inl e'' ↦ rw (e, e', e'') kill
          | inr e'' ↦ rw (e, e', e'') nothing
        ]
      ]
    ]
