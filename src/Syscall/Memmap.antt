-- ===== src/Syscall/Memmap.antt =====
-- Bytes of physical memory through `__sys_memmap`.
use simple_32bit_os.Base.{ℕ, ◌%◌, ◌^◌, ◌<◌, ◌≡◌, some, ◌==◌, if◌then◌else◌, sext_byte}
use simple_32bit_os.Memphy.Device.{IsRandom, updated, read-random, write-random}
use simple_32bit_os.Memory.{Caller}
use simple_32bit_os.Syscall.{Regs, io_read, io_write, sys_memmap, read_byte, write_byte}

-- The registers of a call that writes a byte, and of one that reads.
abbrev to_write : (addr value : ℕ) → Regs
to_write addr value = record { a1 = io_write; a2 = addr; a3 = value }

abbrev to_read : (addr junk : ℕ) → Regs
to_read addr junk = record { a1 = io_read; a2 = addr; a3 = junk }

pub sys_memmap-to_write :
    (caller : Caller) (addr value : ℕ)
    → IsRandom caller.mram
    → addr < caller.mram.maxsz
    → sys_memmap caller (to_write addr value)
      ≡ some (record {
        result = 0;
        regs = to_write addr value;
        caller = record caller { mram = updated caller.mram addr (value % 2 ^ 8) };
      })
unfolding sys_memmap write_byte
sys_memmap-to_write caller addr value random inside =
    rw (write-random caller.mram addr (value % 2 ^ 8) random inside)

pub sys_memmap-to_read :
    (caller : Caller) (addr junk : ℕ)
    → IsRandom caller.mram
    → addr < caller.mram.maxsz
    → sys_memmap caller (to_read addr junk)
      ≡ some (record {
        result = 0;
        regs = to_read addr (sext_byte (caller.mram.storage addr));
        caller = caller;
      })
unfolding sys_memmap read_byte
sys_memmap-to_read caller addr junk random inside = rw (read-random caller.mram addr random inside)

-- When RAM has random access and both addresses are inside it, `__sys_memmap` with SYSMEM_IO_WRITE
-- returns 0, and after it SYSMEM_IO_READ returns 0 with `a3` the low byte of what was written, if the
-- address is the same, and otherwise the byte that was there, extended by its sign. The read changes
-- nothing in memory. No page table is asked whether the caller may touch the address.
sys_memmap-sys_memmap :
    (caller : Caller) (addr value a junk : ℕ)
    → IsRandom caller.mram
    → addr < caller.mram.maxsz
    → a < caller.mram.maxsz
    → (after : Caller) × (sys_memmap caller (to_write addr value)
        ≡ some (record { result = 0; regs = to_write addr value; caller = after }))
      × (sys_memmap after (to_read a junk)
          ≡ some (record {
            result = 0;
            regs =
                to_read a (sext_byte (if a == addr then value % 2 ^ 8 else caller.mram.storage a));
            caller = after;
          }))
sys_memmap-sys_memmap caller addr value a junk random inside inside' =
    let after = record caller { mram = updated caller.mram addr (value % 2 ^ 8) } in
    (
      after,
      sys_memmap-to_write caller addr value random inside,
      sys_memmap-to_read after a junk random inside',
    )
