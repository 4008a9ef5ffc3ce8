-- ===== src/Cpu/Programs.antt =====
-- What an instruction may change in the control blocks.
use simple_32bit_os.Base.{
  ℕ, zero, suc, ◌+◌, ◌≡◌, ◌<◌, refl, sym, List, [], ◌∷◌, some, arith, u32, leb, length, get_elem?,
  get_elem?-lt, false, ==_self, Holds, Holds-bind, Holds-some, ◌∙◌, ◌%◌, ◌^◌,
}
use simple_32bit_os.Memory.{Region}
use simple_32bit_os.Libmem.Alloc.{liballoc, libfree}
use simple_32bit_os.Libmem.Paging.{libread, libwrite}
use simple_32bit_os.Queue.{Ptr}
use simple_32bit_os.Process.{Inst, Opcode}
use simple_32bit_os.System.{System, deref, set_pcb, caller_of, with_caller}
use simple_32bit_os.Killall.Programs.{
  KeepsPrograms, SamePrograms, SamePrograms-store, SamePrograms-trans, keeps_heap,
}
use simple_32bit_os.Dispatch.{Result}
use simple_32bit_os.Dispatch.Calls.{libsyscall-Keeps}
use simple_32bit_os.Cpu.{returned, execute, advance_pc, run}

execute-Keeps :
    (junk : Region) (s : System) (p : Ptr) (ins : Inst) (o : Opcode)
    → Holds (λ r. KeepsPrograms p s r.system) (execute junk s p ins o)
unfolding execute returned with_caller
execute-Keeps junk s p ins Opcode.calc = keeps_heap p s s refl refl
execute-Keeps junk s p ins Opcode.alloc =
    Holds-bind (λ r. KeepsPrograms p s r.system) (caller_of s p) _
      λ c e.
        Holds-bind (λ r. KeepsPrograms p s r.system) (liballoc c ins.arg_0 ins.arg_1 junk) _
          λ r e'. keeps_heap p s s refl refl
execute-Keeps junk s p ins Opcode.free =
    Holds-bind (λ r. KeepsPrograms p s r.system) (caller_of s p) _
      λ c e.
        Holds-bind (λ r. KeepsPrograms p s r.system) (libfree c ins.arg_0) _
          λ r e'. keeps_heap p s s refl refl
execute-Keeps junk s p ins Opcode.read =
    Holds-bind (λ r. KeepsPrograms p s r.system) (caller_of s p) _
      λ c e.
        Holds-bind (λ r. KeepsPrograms p s r.system) (libread c ins.arg_0 ins.arg_1) _
          λ d e'.
            Holds-bind (λ r. KeepsPrograms p s r.system) d.destination _
              λ b e''. keeps_heap p s s refl refl
execute-Keeps junk s p ins Opcode.write =
    Holds-bind (λ r. KeepsPrograms p s r.system) (caller_of s p) _
      λ c e.
        Holds-bind (λ r. KeepsPrograms p s r.system)
          (libwrite c (ins.arg_0 % 2 ^ 8) ins.arg_1 ins.arg_2) _ λ r e'. keeps_heap p s s refl refl
execute-Keeps junk s p ins Opcode.syscall =
    libsyscall-Keeps s p ins.arg_0 ins.arg_1 ins.arg_2 ins.arg_3

-- A process that was not freed and is not at its end.
pub record IsReady (s : System) (p : Ptr) : Type 0 where
  pub alive : s.freed p ≡ false
  pub unfinished : (s.sched.heap p).pc < length (s.sched.heap p).text

pub run-execute :
    (junk : Region) (s : System) (p : Ptr) (ins : Inst)
    → s.freed p ≡ false
    → get_elem? (s.sched.heap p).text (s.sched.heap p).pc ≡ some ins
    → run junk s p ≡ execute junk (advance_pc s p (s.sched.heap p)) p ins ins.opcode
unfolding run deref
run-execute junk s p ins alive at =
    let c = s.sched.heap p in
    let inside : leb (length c.text) c.pc ≡ false =
      ground (arith, get_elem?-lt c.text c.pc ins at) in
    rw (alive, inside, at) refl

-- When `run` of a process that was not freed and has not finished returns, whatever the instruction
-- was: the process has moved its program counter by one, and no other field of it has changed, its
-- registers included, and it was not freed; the other processes have kept all their fields but for
-- the program counter, which `killall` moves.
pub run-Keeps :
    (junk : Region) (s : System) (p : Ptr) (out : Result)
    → IsReady s p
    → run junk s p ≡ some out
    → (out.system.sched.heap p ≡ record (s.sched.heap p) { pc = u32 ((s.sched.heap p).pc + 1) })
      × (out.system.freed p ≡ s.freed p)
      × SamePrograms s.sched.heap out.system.sched.heap
unfolding advance_pc set_pcb
run-Keeps junk s p out is e =
    let c = s.sched.heap p in
    let t = advance_pc s p c in
    let (ins, at) = instruction_at c.text c.pc is.unfinished in
    let k =
      Holds-some (λ r. KeepsPrograms p t r.system) (execute-Keeps junk t p ins ins.opcode)
        (sym (run-execute junk s p ins is.alive at) ∙ e) in
    (
      k.1 ∙ rw (==_self p) refl,
      k.2,
      SamePrograms-trans s.sched.heap t.sched.heap out.system.sched.heap
          (SamePrograms-store s.sched.heap p (u32 (c.pc + 1))) k.0,
    )
  where
    instruction_at :
        (text : List Inst) (pc : ℕ)
        → pc < length text
        → (ins : Inst) × (get_elem? text pc ≡ some ins)
    instruction_at [] pc h = absurd (omega arith)
    instruction_at (i ∷ is) zero h = (i, refl)
    instruction_at (i ∷ is) (suc pc) h = instruction_at is pc (omega arith)
