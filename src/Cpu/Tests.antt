-- ===== src/Cpu/Tests.antt =====
-- Process 2 of System/Tests with a READ or a WRITE at its program counter, of byte 4 of symbol 0.
use simple_32bit_os.Base.{◌%◌, ◌^◌, ◌+◌, u32, ◌≡◌, refl, some, false, [], ◌∷◌, arith}
use simple_32bit_os.Libmem.Tests.{symbol}
use simple_32bit_os.Libmem.Paging.Regions.{symbol_place}
use simple_32bit_os.Libmem.Paging.Tests.{first-IsSymbol}
use simple_32bit_os.Process.{Inst, Opcode}
use simple_32bit_os.System.{System, set_pcb}
use simple_32bit_os.System.Tests.{machine, block}
use simple_32bit_os.Killall.Programs.{SamePrograms}
use simple_32bit_os.Dispatch.{Result, nr_memmap, libsyscall}
use simple_32bit_os.Dispatch.Calls.{byte_written, memory_of, libsyscall-libsyscall}
use simple_32bit_os.Syscall.{io_read, io_write}
use simple_32bit_os.Cpu.{run}
use simple_32bit_os.Cpu.Step.{Next, stepped, run-read, run-write}
use simple_32bit_os.Cpu.Programs.{run-Keeps}

abbrev plain : System
plain = machine λ p. 1

abbrev with_next : Inst → System
with_next ins = set_pcb plain 2 (record (block (λ p. 1) 2) { text = ins ∷ [] })

abbrev read_4 : Inst
read_4 = record { opcode = Opcode.read; arg_0 = 0; arg_1 = 4; arg_2 = 7; arg_3 = 0 }

abbrev write_4 : Inst
write_4 = record { opcode = Opcode.write; arg_0 = 300; arg_1 = 0; arg_2 = 4; arg_3 = 0 }

read-Next : Next (with_next read_4) 2 read_4 Opcode.read
unfolding set_pcb
read-Next = record { alive = refl; here = refl; is = refl }

write-Next : Next (with_next write_4) 2 write_4 Opcode.write
unfolding set_pcb
write-Next = record { alive = refl; here = refl; is = refl }

run-read_example :
    run symbol (with_next read_4) 2
    ≡ some (record { result = 0; system = stepped (with_next read_4) 2 })
unfolding set_pcb
run-read_example = run-read symbol (with_next read_4) 2 read_4 read-Next first-IsSymbol

run-write_example :
    run symbol (with_next write_4) 2
    ≡ some (record {
      result = 0;
      system =
          byte_written
            (stepped (with_next write_4) 2)
            (symbol_place (memory_of (with_next write_4) 2) first-IsSymbol.region 4)
            (300 % 2 ^ 8);
    })
unfolding set_pcb
run-write_example = run-write symbol (with_next write_4) 2 write_4 write-Next first-IsSymbol

abbrev read_done : Result
read_done = record { result = 0; system = stepped (with_next read_4) 2 }

run-Keeps_example :
    (read_done.system.sched.heap 2 ≡ record ((with_next read_4).sched.heap 2) {
      pc = u32 (((with_next read_4).sched.heap 2).pc + 1);
    })
    × (read_done.system.freed 2 ≡ false)
    × SamePrograms (with_next read_4).sched.heap read_done.system.sched.heap
unfolding set_pcb
run-Keeps_example =
    run-Keeps symbol (with_next read_4) 2 read_done
      (record { alive = refl; unfinished = omega arith })
      (run-read symbol (with_next read_4) 2 read_4 read-Next first-IsSymbol)

libsyscall-libsyscall_example :
    let after = byte_written plain 20 (300 % 2 ^ 8) in
    (libsyscall plain 2 nr_memmap io_write 20 300 ≡ some (record { result = 0; system = after }))
    × (libsyscall after 2 nr_memmap io_read 20 9 ≡ some (record { result = 0; system = after }))
libsyscall-libsyscall_example =
    libsyscall-libsyscall plain 2 20 300 20 9 refl (λ e. omega (arith, e)) (omega arith)
      (omega arith)
