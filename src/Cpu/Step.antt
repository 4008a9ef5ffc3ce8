-- ===== src/Cpu/Step.antt =====
-- The instructions READ and WRITE on a byte that is mapped.
use simple_32bit_os.Base.{◌+◌, ◌%◌, ◌^◌, ◌≡◌, refl, some, u32, get_elem?, false, ◌∙◌}
use simple_32bit_os.Memory.{Region}
use simple_32bit_os.Libmem.Paging.Regions.{IsSymbol, symbol_place, libread-symbol, libwrite-symbol}
use simple_32bit_os.Queue.{Ptr}
use simple_32bit_os.Process.{Inst, Opcode}
use simple_32bit_os.System.{System, caller_of, set_pcb}
use simple_32bit_os.Dispatch.Calls.{memory_of, byte_written, with_caller-same, with_caller-mram}
use simple_32bit_os.Cpu.{run, execute, returned, advance_pc, calc}
use simple_32bit_os.Cpu.Programs.{run-execute}

-- The next instruction of a process that was not freed.
pub record Next (s : System) (p : Ptr) (ins : Inst) (o : Opcode) : Type 0 where
  pub alive : s.freed p ≡ false
  pub here : get_elem? (s.sched.heap p).text (s.sched.heap p).pc ≡ some ins
  pub is : ins.opcode ≡ o

-- The system with the program counter of a process moved by one.
abbrev pub stepped : System → Ptr → System
stepped s p = set_pcb s p (record (s.sched.heap p) { pc = u32 ((s.sched.heap p).pc + 1) })

module _ (junk : Region) (s : System) (p : Ptr) (ins : Inst) where
  pub run-calc :
      Next s p ins Opcode.calc → run junk s p ≡ some (record { result = 0; system = stepped s p })
  unfolding execute advance_pc calc
  run-calc next = run-execute junk s p ins next.alive next.here ∙ rw next.is refl

  -- READ of a byte of a symbol that is mapped returns 0 and moves the program counter, and changes
  -- nothing else: the register that `arg_2` names does not get the byte, nor does anything else that
  -- the process can read.
  pub run-read :
      Next s p ins Opcode.read
      → IsSymbol (memory_of s p) ins.arg_0 ins.arg_1
      → run junk s p ≡ some (record { result = 0; system = stepped s p })
  unfolding execute returned advance_pc caller_of set_pcb
  run-read next is =
      run-execute junk s p ins next.alive next.here
      ∙ rw
          (
            next.is,
            next.alive,
            libread-symbol (memory_of s p) ins.arg_0 ins.arg_1 is,
            with_caller-same (stepped s p) p,
          )
          refl

  -- WRITE to a byte of a symbol that is mapped returns 0, moves the program counter, and stores the
  -- low byte of `arg_0` at the place of the byte in RAM; nothing else changes.
  pub run-write :
      Next s p ins Opcode.write
      → (is : IsSymbol (memory_of s p) ins.arg_1 ins.arg_2)
      → run junk s p
        ≡ some (record {
          result = 0;
          system =
              byte_written
                (stepped s p)
                (symbol_place (memory_of s p) is.region ins.arg_2)
                (ins.arg_0 % 2 ^ 8);
        })
  unfolding execute returned advance_pc caller_of set_pcb
  run-write next is =
      run-execute junk s p ins next.alive next.here
      ∙ rw
          (
            next.is,
            next.alive,
            libwrite-symbol (memory_of s p) (ins.arg_0 % 2 ^ 8) ins.arg_1 ins.arg_2 is,
            with_caller-mram (stepped s p) p (symbol_place (memory_of s p) is.region ins.arg_2)
                (ins.arg_0 % 2 ^ 8),
          )
          refl
